-- ===== src/Session/Data.antt =====
-- internal/session/store.go: one session and its journal file. A session with a file path owns that
-- file: `journal` is its content, and `mod_time` would be its modification time. `accepted` says
-- whether the file system accepts a write; a refused write is only logged by the code.
-- A `Reader` has the JSON package's part: `decode m` is the message that `UnmarshalJSON` reads back from
-- what `MarshalJSON` wrote for `m`, and `line_size` the length of a line with its line feed.
use koios.Prelude.{
  Text, text, List, [], ◌∷◌, ◌++◌, map, Bool, true, ◌≡◌, refl, ℕ, if◌then◌else◌, append_assoc,
  append-nil, sym, ◌&&◌, leb, Bool-cases, inl, inr, arith, ◌∙◌,
}
use koios.Types.{Message, plain_message}

-- One line of a journal file, after decoding. `other` stands for a line that the reader skips: one
-- that is empty, malformed, of an unknown type, or of type "msg" with no message.
pub data Line : Type 0 where
  msg : Message → Line
  compaction : Text → Line
  other : Line

pub record Session : Type 0 where
  pub messages : List Message
  pub persisted : Bool
  pub journal : List Line
  pub last_activity : ℕ

-- `types.Message{Role: "system", Content: "<summary>" + summary + "</summary>"}`
unfoldable pub checkpoint : Text → Message
checkpoint summary =
    plain_message (text "system") (text "<summary>" ++ (summary ++ text "</summary>"))

pub record Reader : Type 0 where
  pub decode : Message → Message
  pub line_size : Line → ℕ

-- The scanner's buffer.
abbrev pub max_line : ℕ
max_line = 4_194_304

unfoldable pub fits : Reader → Line → Bool
fits reload l = leb (reload.line_size l) max_line

unfoldable pub read_line : Reader → List Message → Line → List Message
read_line reload acc (msg m) = acc ++ reload.decode m ∷ []
read_line reload acc (compaction s) = checkpoint s ∷ []
read_line reload acc other = acc

-- The loop of `loadFromFile`. A line that does not fit the buffer ends it; the error is only logged.
unfoldable pub read_lines : Reader → List Message → List Line → List Message
read_lines reload acc [] = acc
read_lines reload acc (l ∷ ls) =
    let rest = read_lines reload (read_line reload acc l) ls in if fits reload l then rest else acc

-- `loadFromFile` on an existing file with the given lines and modification time.
unfoldable pub load_from_file : Reader → List Line → ℕ → Session
load_from_file reload ls mod_time = record {
  messages = read_lines reload [] ls;
  persisted = true;
  journal = ls;
  last_activity = mod_time;
}

unfoldable pub write_entries : Bool → List Message → Session → Session
write_entries accepted ms s =
    if s.persisted
    then (if accepted then record s { journal = s.journal ++ map msg ms } else s)
    else s

unfoldable pub rewrite_file : Bool → Session → Session
rewrite_file accepted s =
    if s.persisted then (if accepted then record s { journal = map msg s.messages } else s) else s

unfoldable pub truncate_file : Bool → Session → Session
truncate_file accepted s =
    if s.persisted then (if accepted then record s { journal = [] } else s) else s

-- `Session.Reset`
unfoldable pub reset : Bool → ℕ → Session → Session
unfolding truncate_file
reset accepted now s = truncate_file accepted (record s { messages = []; last_activity = now })

-- `Session.History`
unfoldable pub history : Session → List Message
history s = s.messages

-- Does the reading come to the end of the lines?
unfoldable pub all_fit : Reader → List Line → Bool
all_fit reload [] = true
all_fit reload (l ∷ ls) = fits reload l && all_fit reload ls

-- The messages before the first whose line does not fit.
unfoldable pub readable : Reader → List Message → List Message
readable reload [] = []
readable reload (m ∷ ms) =
    let rest = readable reload ms in if fits reload (msg m) then m ∷ rest else []

-- Reading back what was written gives the messages, each as decoded.
pub read_lines-map-msg :
    (reload : Reader) (acc ms : List Message)
    → read_lines reload acc (map msg ms) ≡ acc ++ map reload.decode (readable reload ms)
unfolding read_lines read_line readable
read_lines-map-msg reload acc [] = sym (append-nil acc)
read_lines-map-msg reload acc (m ∷ ms) = elim (Bool-cases (fits reload (msg m))) [
  | inl f ↦ rw f (
      read_lines-map-msg reload (acc ++ reload.decode m ∷ []) ms
      ∙ append_assoc acc (reload.decode m ∷ []) (map reload.decode (readable reload ms)))
  | inr f ↦ rw f (sym (append-nil acc))
]

pub read_lines-append :
    (reload : Reader) (acc : List Message) (xs ys : List Line)
    → read_lines reload acc (xs ++ ys) ≡ (
        if all_fit reload xs
        then read_lines reload (read_lines reload acc xs) ys
        else read_lines reload acc xs)
unfolding read_lines all_fit
read_lines-append reload acc [] ys = refl
read_lines-append reload acc (l ∷ xs) ys =
    ground (arith, read_lines-append reload (read_line reload acc l) xs ys)

pub all_fit-append :
    (reload : Reader) (xs ys : List Line)
    → all_fit reload (xs ++ ys) ≡ (all_fit reload xs && all_fit reload ys)
unfolding all_fit
all_fit-append reload [] ys = refl
all_fit-append reload (l ∷ xs) ys = ground (arith, all_fit-append reload xs ys)

pub readable_all :
    (reload : Reader) (ms : List Message)
    → all_fit reload (map msg ms) ≡ true
    → readable reload ms ≡ ms
unfolding readable all_fit
readable_all reload [] h = refl
readable_all reload (m ∷ ms) h = ground (arith, readable_all reload ms)

pub readable-append :
    (reload : Reader) (xs ys : List Message)
    → readable reload (xs ++ ys)
      ≡ (if all_fit reload (map msg xs) then xs ++ readable reload ys else readable reload xs)
unfolding readable all_fit
readable-append reload [] ys = refl
readable-append reload (m ∷ xs) ys = ground (arith, readable-append reload xs ys)
