-- ===== src/Cli/Input.antt =====
-- cli/chat-input-decoder.ts: the class ChatInputDecoder, whose loop runs by the length of the buffer.
pub mod Settled
use echocoding_harness.Common.{
  ℕ, zero, suc, ◌+◌, Bool, true, false, not, ◌&&◌, ◌||◌, leb, ◌==◌, Option, none, some, List, [],
  ◌∷◌, ◌++◌, length, take, drop, if◌then◌else◌, Text, units, text_eq, starts_with,
}
use echocoding_harness.Tools.Files.Edits.{first_match}

-- `BRACKETED_PASTE_START`, `BRACKETED_PASTE_END`
abbrev paste_start : Text
paste_start = 27 ∷ units "[200~"

abbrev paste_end : Text
paste_end = 27 ∷ units "[201~"

pub data ChatInputSource : Type 0 where
  typed paste : ChatInputSource

pub data ChatInputReadResult : Type 0 where
  batch : Text → ChatInputSource → ChatInputReadResult
  interrupt eof : ChatInputReadResult

pub data DelimiterKind : Type 0 where
  start finish newline interrupt : DelimiterKind

pub record Delimiter : Type 0 where
  pub index : ℕ
  pub kind : DelimiterKind

-- `buffer.slice(buffer.lastIndexOf('\u001b'))`
abbrev escape_or : ℕ → Text → Option Text → Option Text
escape_or c t (some tail) = some tail
escape_or c t none = if c == 27 then some (c ∷ t) else none

unfoldable pub last_escape : Text → Option Text
last_escape [] = none
last_escape (c ∷ t) = escape_or c t (last_escape t)

abbrev is_part_of : Text → Text → Bool
is_part_of tail marker = starts_with tail marker && not (text_eq tail marker)

abbrev held_tail : Option Text → Bool
held_tail none = false
held_tail (some tail) = is_part_of tail paste_start || is_part_of tail paste_end

unfoldable pub held_paste_marker : Text → Bool
unfolding last_escape units
held_paste_marker buffer = held_tail (last_escape buffer)

-- `buffer.indexOf(search)`
abbrev length_before : Option (Text × Text) → Option ℕ
length_before none = none
length_before (some (before, _)) = some (length before)

abbrev pub index_of : Text → Text → Option ℕ
index_of search buffer = length_before (first_match search buffer)

abbrev candidate : DelimiterKind → Option ℕ → Option Delimiter
candidate kind none = none
candidate kind (some i) = some (record { index = i; kind = kind })

-- The candidate with the smaller index; of two with the same one the first.
abbrev earlier : Option Delimiter → Option Delimiter → Option Delimiter
earlier none o = o
earlier (some a) none = some a
earlier (some a) (some b) = if leb a.index b.index then some a else some b

abbrev or_index : Option ℕ → Option ℕ → Option ℕ
or_index none o = o
or_index (some i) o = some i

unfoldable pub next_delimiter : Text → Bool → Option Delimiter
unfolding units
next_delimiter buffer true =
    earlier (candidate DelimiterKind.interrupt (index_of (3 ∷ []) buffer))
      (candidate DelimiterKind.finish (index_of paste_end buffer))
next_delimiter buffer false =
    earlier
      (earlier (candidate DelimiterKind.interrupt (index_of (3 ∷ []) buffer))
        (candidate DelimiterKind.start (index_of paste_start buffer)))
      (candidate DelimiterKind.newline (
        or_index (index_of (13 ∷ 10 ∷ []) buffer)
          (or_index (index_of (13 ∷ []) buffer) (index_of (10 ∷ []) buffer))))

unfoldable pub newline_length : Text → ℕ → ℕ
newline_length buffer index = if starts_with (13 ∷ 10 ∷ []) (drop index buffer) then 2 else 1

pub record Decoder : Type 0 where
  pub buffer : Text
  pub pasted : Option Text

abbrev pub is_pasting : Option Text → Bool
is_pasting none = false
is_pasting (some _) = true

abbrev or_empty : Option Text → Text
or_empty none = []
or_empty (some t) = t

abbrev typed_batch : Text → List ChatInputReadResult
typed_batch [] = []
typed_batch (c ∷ t) = batch (c ∷ t) typed ∷ []

-- What an iteration of the loop leads to: the decoder, the events, and whether the loop goes on.
pub record Round : Type 0 where
  pub decoder : Decoder
  pub events : List ChatInputReadResult
  pub goes_on : Bool

abbrev pub take_delimiter : Decoder → DelimiterKind → ℕ → Round
take_delimiter d interrupt i = record {
  decoder = record { buffer = []; pasted = none };
  events = ChatInputReadResult.interrupt ∷ [];
  goes_on = false;
}
take_delimiter d start i = record {
  decoder = record { buffer = drop (i + 6) d.buffer; pasted = some [] };
  events = typed_batch (take i d.buffer);
  goes_on = true;
}
take_delimiter d finish i = record {
  decoder = record { buffer = drop (i + 6) d.buffer; pasted = none };
  events = batch (or_empty d.pasted ++ take i d.buffer) paste ∷ [];
  goes_on = true;
}
take_delimiter d newline i = record {
  decoder = record { buffer = drop (i + newline_length d.buffer i) d.buffer; pasted = d.pasted };
  events = batch (take i d.buffer) typed ∷ [];
  goes_on = true;
}

abbrev pub at_delimiter : Decoder → Option Delimiter → Round
at_delimiter d none = record { decoder = d; events = []; goes_on = false }
at_delimiter d (some m) = take_delimiter d m.kind m.index

abbrev pub stopped : Decoder → Round
stopped d = record { decoder = d; events = []; goes_on = false }

unfoldable pub drain_round : Decoder → Round
unfolding held_paste_marker next_delimiter newline_length
drain_round d =
    if text_eq d.buffer [] || held_paste_marker d.buffer
    then stopped d
    else at_delimiter d (next_delimiter d.buffer (is_pasting d.pasted))

-- The rounds that follow.
abbrev pub continued :
    Round → (Decoder → List ChatInputReadResult × Decoder) → List ChatInputReadResult × Decoder
continued r rest =
    let onward = rest r.decoder in
    if r.goes_on then (r.events ++ onward.0, onward.1) else (r.events, r.decoder)

unfoldable pub drain : ℕ → Decoder → List ChatInputReadResult × Decoder
unfolding drain_round
drain zero d = ([], d)
drain (suc rounds) d = continued (drain_round d) (drain rounds)

unfoldable pub push : Text → Decoder → List ChatInputReadResult × Decoder
unfolding drain
push chunk d =
    let buffer = d.buffer ++ chunk in
    drain (length buffer) (record { buffer = buffer; pasted = d.pasted })

abbrev last_batch : Option Text → Text → List ChatInputReadResult
last_batch (some pasted) buffer = batch (pasted ++ buffer) paste ∷ []
last_batch none buffer = typed_batch buffer

abbrev ended : List ChatInputReadResult × Decoder → List ChatInputReadResult × Decoder
ended (events, d) =
    (events ++ (last_batch d.pasted d.buffer ++ eof ∷ []), record { buffer = []; pasted = none })

-- `end`
unfoldable pub end_input : Decoder → List ChatInputReadResult × Decoder
unfolding drain
end_input d = ended (drain (length d.buffer) d)
