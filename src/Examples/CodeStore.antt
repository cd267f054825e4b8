-- ===== src/Examples/CodeStore.antt =====
-- The theorems of `CodeStore` at a log of two codes.
use mpt_flat_poc.Prelude.{
  ℕ, ◌≡◌, refl, false, some, List, [], ◌∷◌, ◌++◌, take, list_eqb, arith, if◌then◌else◌,
}
use mpt_flat_poc.CodeStore.{open_log, log_entry, put, get, index_insert}
use mpt_flat_poc.CodeStore.Reopen.{puts, fresh_store, open_log-puts}
use mpt_flat_poc.CodeStore.Fetch.{get-put}
use mpt_flat_poc.Codec.Write.{len_bytes}
use mpt_flat_poc.Examples.Toy.{toy}
use mpt_flat_poc.Examples.Records.{toy_wide}
use mpt_flat_poc.Result.{ok}

abbrev two_codes : List (List ℕ)
two_codes = (1 ∷ 2 ∷ 3 ∷ []) ∷ (4 ∷ []) ∷ []

-- A crash behind the header and one byte of the third code.
open_log-puts_example :
    open_log ((puts fresh_store two_codes).file ++ take 37 (log_entry (5 ∷ 6 ∷ []))) false
    ≡ ok (puts fresh_store two_codes)
unfolding log_entry len_bytes
open_log-puts_example =
    open_log-puts toy_wide two_codes (5 ∷ 6 ∷ []) 37 (omega arith, (omega arith, tt)) (omega arith)
      (omega arith)

get-put_example : get (put (puts fresh_store two_codes) (5 ∷ 6 ∷ [])) (4 ∷ []) ≡ (
    if list_eqb (4 ∷ []) (toy.keccak256 (5 ∷ 6 ∷ []))
    then ok (some (5 ∷ 6 ∷ []))
    else get (puts fresh_store two_codes) (4 ∷ []))
unfolding puts index_insert list_eqb
get-put_example =
    get-put toy_wide two_codes (5 ∷ 6 ∷ []) (4 ∷ []) (omega arith, (omega arith, tt)) (omega arith)
      refl refl refl
