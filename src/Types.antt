-- ===== src/Types.antt =====
-- internal/types/types.go and internal/redact/redact.go: a message of a conversation, the content
-- that its JSON form carries, and the redaction of secrets. JSON texts are kept as text.
use koios.Prelude.{Text, List, [], Option, is_empty, if◌then◌else◌, text_eq}

pub record ImageUrlPart : Type 0 where
  pub url : Text
  pub detail : Text

pub record ContentPart : Type 0 where
  pub kind : Text
  pub text_of : Text
  pub image_url : Option ImageUrlPart

pub record ToolCall : Type 0 where
  pub id : Text
  pub kind : Text
  pub name : Text
  pub arguments : Text

pub record Message : Type 0 where
  pub role : Text
  pub content : Text
  pub parts : List ContentPart
  pub raw_content : Text
  pub reasoning_content : Text
  pub tool_call_id : Text
  pub tool_calls : List ToolCall

-- What `MarshalJSON` emits under the key "content".
pub data Wire : Type 0 where
  verbatim : Text → Wire
  multipart : List ContentPart → Wire
  plain : Text → Wire

unfoldable pub wire_content : Message → Wire
wire_content m =
    if is_empty m.raw_content
    then (if is_empty m.parts then plain m.content else multipart m.parts)
    else verbatim m.raw_content

-- The message with the given role and content, and every other field empty.
abbrev pub plain_message : Text → Text → Message
plain_message role content = record {
  role = role;
  content = content;
  parts = [];
  raw_content = [];
  reasoning_content = [];
  tool_call_id = [];
  tool_calls = [];
}
