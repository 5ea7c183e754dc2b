-- ===== src/Live/Stream.antt =====
-- The parser of server-sent events of packages/core/src/live/transport.ts: `parseFrame` and the class
-- FluxSseParser. A text is the list of its characters' codes, as the decoder of the runtime gives
-- them; line breaks are 13 and 10, a colon is 58. `read` is `JSON.parse`, with nothing for what it
-- throws at.
pub mod Laws
use flux_fast.Shared.{
  ℕ, zero, suc, ◌+◌, Bool, true, false, ◌&&◌, ◌||◌, not, Option, none, some, List, [], ◌∷◌, ◌++◌,
  if◌then◌else◌, ltb, leb, ◌==◌, drop, length,
}
use flux_fast.Shared.Chars.{codes}
use flux_fast.Value.{Value}
use flux_fast.Live.Protocol.{assert_live_event}
use flux_fast.Live.Protocol

abbrev pub Text : Type 0
Text = List ℕ

-- The bytes of a text in UTF-8.
abbrev pub byte_length : Text → ℕ
byte_length [] = 0
byte_length (c ∷ cs) =
    (if ltb c 128 then 1 else if ltb c 2048 then 2 else if ltb c 65536 then 3 else 4)
    + byte_length cs

abbrev two_breaks : Text → ℕ
two_breaks (c ∷ d ∷ cs) = if c == 13 && d == 10 then 4 else 0
two_breaks _ = 0

-- The length of the separator that a text begins with, or 0: `/\r\n\r\n|\n\n|\r\r/`.
unfoldable pub separator : Text → ℕ
separator (c ∷ d ∷ cs) =
    if (c == 10 && d == 10) || (c == 13 && d == 13)
    then 2
    else if c == 13 && d == 10
    then two_breaks cs
    else 0
separator _ = 0

abbrev pub before : ℕ → Option (Text × Text) → Option (Text × Text)
before c none = none
before c (some (frame, rest)) = some (c ∷ frame, rest)

-- The first frame of the buffer and what comes after its separator.
unfoldable pub split_frame : Text → Option (Text × Text)
unfolding separator
split_frame [] = none
split_frame (c ∷ cs) =
    let later = split_frame cs in
    if separator (c ∷ cs) == 0
    then before c later
    else some ([], drop (separator (c ∷ cs)) (c ∷ cs))

-- `frame.split(/\r\n|\r|\n/)`: the line that is being read, and whether it follows a 13, so that a 10
-- next belongs to the same break.
unfoldable pub lines : Bool → Text → Text → List Text
lines after line [] = line ∷ []
lines after line (c ∷ cs) =
    let breaks = c == 10 || c == 13 in
    let rest = lines (c == 13) (if breaks then [] else line ++ c ∷ []) cs in
    if breaks && not (after && c == 10) then line ∷ rest else rest

-- What stands before the first colon, and what follows it.
abbrev pub field_name : Text → Text
field_name [] = []
field_name (c ∷ cs) = if c == 58 then [] else c ∷ field_name cs

abbrev pub field_value : Text → Text
field_value [] = []
field_value (c ∷ cs) = if c == 58 then cs else field_value cs

abbrev without_space : Text → Text
without_space [] = []
without_space (c ∷ cs) = if c == 32 then cs else c ∷ cs

abbrev pub same_codes : Text → Text → Bool
same_codes [] [] = true
same_codes (c ∷ cs) (d ∷ ds) = c == d && same_codes cs ds
same_codes _ _ = false

abbrev is_comment : Text → Bool
is_comment [] = true
is_comment (c ∷ cs) = c == 58

-- The event's name and its data, as the lines of a frame are read.
pub record Frame : Type 0 where
  pub event_name : Option Text
  pub data_lines : List Text

unfoldable pub read_lines : List Text → Frame → Frame
unfolding codes
read_lines [] f = f
read_lines (line ∷ rest) f =
    let value = without_space (field_value line) in
    let named =
      if same_codes (field_name line) (codes "event")
      then record f { event_name = some value }
      else f in
    let extended =
      if same_codes (field_name line) (codes "data")
      then record named { data_lines = named.data_lines ++ value ∷ [] }
      else named in
    read_lines rest (if is_comment line then f else extended)

-- `data.join("\n")`
abbrev pub join_lines : List Text → Text
join_lines [] = []
join_lines (line ∷ []) = line
join_lines (line ∷ more ∷ rest) = line ++ 10 ∷ join_lines (more ∷ rest)

pub data Parsed : Type 0 where
  nothing unknown_event missing_data malformed too_long : Parsed
  refused : Protocol.LiveRefusal → Parsed
  event : Value → Parsed

abbrev checked : Value → Option Protocol.LiveRefusal → Parsed
checked v none = event v
checked v (some refusal) = refused refusal

abbrev decoded : Option Value → Parsed
decoded none = malformed
decoded (some v) = checked v (assert_live_event v)

abbrev is_name : Option Text → Bool
is_name none = false
is_name (some name) = same_codes name (codes "fluxfast")

abbrev interpreted : (Text → Option Value) → Option Text → List Text → Parsed
interpreted read none [] = nothing
interpreted read name data_lines =
    if not (is_name name)
    then unknown_event
    else if length data_lines == 0
    then missing_data
    else decoded (read (join_lines data_lines))

unfoldable pub parse_frame : (Text → Option Value) → Text → Parsed
unfolding lines read_lines assert_live_event
parse_frame read frame =
    let f = read_lines (lines false [] frame) (record { event_name = none; data_lines = [] }) in
    interpreted read f.event_name f.data_lines

-- A frame is measured before it is parsed.
abbrev pub parse_sized : (Text → Option Value) → Text → Parsed
parse_sized read frame =
    if ltb 1048576 (byte_length frame) then too_long else parse_frame read frame

-- What `drain` answers: the buffer that is left, and the events or what it throws.
pub record Drained : Type 0 where
  pub buffer : Text
  pub events : List Value
  pub thrown : Option Parsed

abbrev pub last_frame : Parsed → Drained
last_frame nothing = record { buffer = []; events = []; thrown = none }
last_frame (event v) = record { buffer = []; events = v ∷ []; thrown = none }
last_frame problem = record { buffer = []; events = []; thrown = some problem }

abbrev pub kept : Text → Drained
kept buffer = record {
  buffer = buffer;
  events = [];
  thrown = if ltb 1048576 (byte_length buffer) then some too_long else none;
}

-- After the last separator: `finish` parses what is left as a frame.
abbrev pub stopped : (Text → Option Value) → Bool → Text → Drained
stopped read finish [] = kept []
stopped read true buffer = last_frame (parse_sized read buffer)
stopped read false buffer = kept buffer

abbrev pub after_frame : Text → Parsed → Drained → Drained
after_frame rest nothing later = later
after_frame rest (event v) later = record later { events = v ∷ later.events }
after_frame rest problem later = record { buffer = rest; events = []; thrown = some problem }

-- The loop of `drain`, with fuel: every round takes a frame and its separator off the buffer.
abbrev pub next_frame :
    (Text → Option Value) → Bool → (Text → Drained) → Text → Option (Text × Text) → Drained
next_frame read finish again buffer none = stopped read finish buffer
next_frame read finish again buffer (some (frame, rest)) =
    after_frame rest (parse_sized read frame) (again rest)

unfoldable pub drain : ℕ → (Text → Option Value) → Bool → Text → Drained
unfolding split_frame parse_frame
drain zero read finish buffer = stopped read finish buffer
drain (suc fuel) read finish buffer =
    next_frame read finish (drain fuel read finish) buffer (split_frame buffer)

-- `push` and `finish`, with the text that the decoder makes of the chunk or has left.
unfoldable pub push : (Text → Option Value) → Text → Text → Drained
unfolding drain
push read chunk buffer = drain (length (buffer ++ chunk)) read false (buffer ++ chunk)

unfoldable pub finish_stream : (Text → Option Value) → Text → Text → Drained
unfolding drain
finish_stream read chunk buffer = drain (length (buffer ++ chunk)) read true (buffer ++ chunk)
