-- ===== src/Tests/Stream.antt =====
-- Runs of the parser of server-sent events of packages/core/src/live/transport.ts.
use flux_fast.Shared.{◌≡◌, refl, Option, none, some, [], ◌∷◌, ◌++◌}
use flux_fast.Shared.Chars.{codes}
use flux_fast.Value.{Value, get_field}
use flux_fast.Live.Protocol.{are_safe_keys, is_event, assert_live_event, ready_event}
use flux_fast.Live.Keys.{is_unsafe_key}
use flux_fast.Shared.Chars.{text_length, code_units, is_blank, includes, has_control}
use flux_fast.Transport.{all_items}
use flux_fast.Live.Stream.{
  Text, separator, split_frame, lines, read_lines, parse_frame, drain, push, finish_stream,
  unknown_event,
}
use flux_fast.Live.Stream.Laws.{split_frame-append, IsDrained, push-IsDrained}

-- What is read of any text.
read : Text → Option Value
read text = some (ready_event 1 2 ("rooms" ∷ []))

-- One frame and the start of another.
abbrev chunk : Text
chunk = codes "event: fluxfast" ++ 13 ∷ 10 ∷ codes "data: {}" ++ 13 ∷ 10 ∷ 13 ∷ 10 ∷ codes "event:"

one_event : (push read chunk []).events ≡ ready_event 1 2 ("rooms" ∷ []) ∷ []
unfolding push drain split_frame separator parse_frame lines read_lines codes assert_live_event
    is_event get_field all_items are_safe_keys is_unsafe_key is_blank text_length code_units
    includes has_control read
one_event = refl

start_kept : (push read chunk []).buffer ≡ codes "event:"
unfolding push drain split_frame separator parse_frame lines read_lines codes assert_live_event
    is_event get_field all_items are_safe_keys is_unsafe_key is_blank text_length code_units
    includes has_control read
start_kept = refl

other_name : (finish_stream read (codes "event: other") []).thrown ≡ some unknown_event
unfolding finish_stream drain split_frame separator parse_frame lines read_lines codes
other_name = refl

nothing_thrown : (push read chunk []).thrown ≡ none
unfolding push drain split_frame separator parse_frame lines read_lines codes assert_live_event
    is_event get_field all_items are_safe_keys is_unsafe_key is_blank text_length code_units
    includes has_control read
nothing_thrown = refl

push_example : IsDrained read ([] ++ chunk) (push read chunk [])
push_example = push-IsDrained read chunk [] nothing_thrown

split_frame_example :
    split_frame ((codes "a" ++ 10 ∷ 10 ∷ []) ++ codes "b") ≡ some (codes "a", codes "b")
split_frame_example =
    split_frame-append (codes "a" ++ 10 ∷ 10 ∷ []) (codes "b") (codes "a") []
      (unfold split_frame separator codes in refl)
