-- ===== src/Execution/Tests.antt =====
-- The buffer at small limits.
use echocoding_harness.Common.{
  ◌+◌, ◌-◌, ◌≤◌, ◌≡◌, refl, arith, List, [], ◌∷◌, length, Text, units, decimal,
}
use echocoding_harness.Execution.Buffer.{empty, append, finish, slice_last, marker}
use echocoding_harness.Execution.Buffer.Reference.{
  append_all, joined, shortened, finish-append_all, length-finish,
}

abbrev two_chunks : List Text
two_chunks =
    units "The first chunk of a long output, " ∷ units "and the second chunk, which ends it." ∷ []

finish-append_all_example :
    finish (append_all two_chunks (empty 60)) ≡ shortened 60 (joined two_chunks)
finish-append_all_example = finish-append_all 59 two_chunks

mark_test : length (marker (length (joined two_chunks) - 60)) + 1 ≡ 39
unfolding units decimal joined
mark_test = refl

length-finish_example : length (finish (append_all two_chunks (empty 60))).text ≤ 60
length-finish_example = length-finish 59 two_chunks (λ e. absurd (omega (arith, e, mark_test)))

-- With the limit one above the length of the mark the whole tail is added: 78 characters for 39.
overlong_test : length (finish (append_all two_chunks (empty 39))).text ≡ 78
unfolding units decimal append_all append finish slice_last
overlong_test = refl
