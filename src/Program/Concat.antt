-- ===== src/Program/Concat.antt =====
-- `concatBytes` of web/src/solana/program.ts against the concatenation of its arguments.
use terra_ledger.Base.{ℕ, ◌+◌, ◌≡◌, refl, ap, ◌∙◌, arith, List, [], ◌∷◌, ◌++◌}
use terra_ledger.Base.{append_assoc, length, flatten, length-append, ok}
use terra_ledger.Bytes.{Bytes, zeros}
use terra_ledger.Bytes.Writes.{set_next}
use terra_ledger.Program.{total_length, concat_loop, concat_bytes}

total_length-eq-add :
    (s : ℕ) (arrays : List Bytes) → total_length s arrays ≡ s + length (flatten arrays)
unfolding total_length
total_length-eq-add s [] = omega arith
total_length-eq-add s (a ∷ arrays) =
    omega (arith, total_length-eq-add (s + length a) arrays, length-append a (flatten arrays))

-- The loop, entered with the bytes `done` written and zeros for the rest.
concat_loop-flatten :
    (done : Bytes) (arrays : List Bytes) (n offset : ℕ)
    → n ≡ length (flatten arrays)
    → offset ≡ length done
    → concat_loop (done ++ zeros n) offset arrays ≡ ok (done ++ flatten arrays)
unfolding concat_loop
concat_loop-flatten done [] n offset size here = rw size
concat_loop-flatten done (a ∷ arrays) n offset size here =
    let rest : ℕ = length (flatten arrays) in
    rw (set_next done a n rest offset (omega (arith, length-append a (flatten arrays))) here) (
      concat_loop-flatten (done ++ a) arrays rest (offset + length a) refl
        (omega (arith, length-append done a))
      ∙ ap ok (append_assoc done a (flatten arrays)))

-- For every list of arrays `concatBytes` throws nothing, and gives their bytes one after the other.
pub concat_bytes-flatten : (arrays : List Bytes) → concat_bytes arrays ≡ ok (flatten arrays)
unfolding concat_bytes
concat_bytes-flatten arrays =
    concat_loop-flatten [] arrays (total_length 0 arrays) 0
      (omega (arith, total_length-eq-add 0 arrays)) refl
