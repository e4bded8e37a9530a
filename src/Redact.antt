-- ===== src/Redact.antt =====
-- internal/redact/redact.go over messages. `scrub` stands for `redact.String`, which applies a list
-- of regular expressions to one text.
use koios.Prelude.{[], ◌∷◌, ◌++◌, Text, List, map, Option, none, some}
use koios.Types.{ImageUrlPart, ContentPart, ToolCall, Message, Wire, plain, multipart, verbatim}

module _ (scrub : Text → Text) where
  unfoldable image : Option ImageUrlPart → Option ImageUrlPart
  image none = none
  image (some img) = some (record img { url = scrub img.url })

  unfoldable part : ContentPart → ContentPart
  unfolding image
  part p = record p { text_of = scrub p.text_of; image_url = image p.image_url }

  unfoldable tool_call : ToolCall → ToolCall
  tool_call tc = record tc { arguments = scrub tc.arguments }

  -- `redact.Message`
  unfoldable pub message : Message → Message
  unfolding part tool_call
  message m = record m {
    content = scrub m.content;
    parts = map part m.parts;
    tool_calls = map tool_call m.tool_calls;
    tool_call_id = scrub m.tool_call_id;
  }

  -- `redact.Messages`
  unfoldable pub messages : List Message → List Message
  unfolding message
  messages ms = map message ms

-- The texts of the content that a message is sent with.
unfoldable pub image_texts : Option ImageUrlPart → List Text
image_texts none = []
image_texts (some img) = img.url ∷ []

unfoldable pub part_texts : ContentPart → List Text
part_texts p = p.text_of ∷ image_texts p.image_url

unfoldable pub texts_of_parts : List ContentPart → List Text
texts_of_parts [] = []
texts_of_parts (p ∷ ps) = part_texts p ++ texts_of_parts ps

unfoldable pub wire_texts : Wire → List Text
wire_texts (verbatim t) = t ∷ []
wire_texts (plain t) = t ∷ []
wire_texts (multipart ps) = texts_of_parts ps
