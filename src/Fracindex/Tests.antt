-- ===== src/Fracindex/Tests.antt =====
-- Runs of the position keys (core/internal/fracindex/fracindex.go).
use notekeeper.Common.{◌≡◌, ◌↔◌, ◌⊎◌, inr, refl, true, some, [], length, All}
use notekeeper.Common.Str.{Str, codes, str_ltb, str_eq, index_byte}
use notekeeper.Fracindex.Between.{IsBound, InOrder, between_ok, between_refuses}
use notekeeper.Fracindex.Even.{Increasing, even_ok}
use notekeeper.Fracindex.{
  order, invalid, ok, err, valid, between, even, midpoint, common_prefix, digit_char,
}

abbrev lower : Str
lower = codes "V"

abbrev upper : Str
upper = codes "W"

lower-valid : valid lower ≡ true
unfolding valid str_eq index_byte
lower-valid = refl

upper-valid : valid upper ≡ true
unfolding valid str_eq index_byte
upper-valid = refl

in_order : InOrder lower upper
unfolding str_ltb
in_order = inr refl

between_ok_example :
    (k : Str) × (between lower upper ≡ some (ok k))
    × (valid k ≡ true)
    × (str_ltb lower k ≡ true)
    × InOrder k upper
between_ok_example = between_ok lower upper (inr lower-valid) (inr upper-valid) in_order

between_refuses_example :
    ((between upper lower ≡ some (err invalid)) ↔ ((¬ IsBound upper) ⊎ (¬ IsBound lower)))
    × ((between upper lower ≡ some (err order))
        ↔ (IsBound upper × IsBound lower × (¬ InOrder upper lower)))
between_refuses_example = between_refuses upper lower

even_ok_example : (length (even 3) ≡ 3) × All (λ k. valid k ≡ true) (even 3) × Increasing (even 3)
even_ok_example = even_ok 3

-- The keys that the tests of the source name.
between_middle : between lower upper ≡ some (ok (codes "VV"))
unfolding between str_eq index_byte str_ltb midpoint common_prefix digit_char
between_middle = refl

between_open : between [] [] ≡ some (ok (codes "V"))
unfolding between str_eq index_byte str_ltb midpoint common_prefix digit_char
between_open = refl
