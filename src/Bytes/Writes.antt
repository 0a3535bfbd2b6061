-- ===== src/Bytes/Writes.antt =====
-- What a write at an offset does, and reads of what stands at an offset.
use terra_ledger.Base.{ℕ, zero, suc, ◌+◌, ◌-◌, ◌<◌, ◌^◌, ◌≡◌, sym, ap, ◌∙◌, arith}
use terra_ledger.Base.{[], refl, append-nil, ◌++◌, append_assoc, length, drop, replicate}
use terra_ledger.Base.{
  length-append, length-replicate, length-drop, drop-drop, take-append, drop-append,
}
use terra_ledger.Base.{ok, le→leb}
use terra_ledger.Bytes.{Bytes, zeros, slice, set, get_uint, set_uint, le_bytes}
use terra_ledger.Bytes.Words.{length-le_bytes, le_value-le_bytes}

drop-replicate : (n m a : ℕ) → drop n (replicate (n + m) a) ≡ replicate m a
drop-replicate zero m a = ap (λ k. replicate k a) (omega arith)
drop-replicate (suc n) m a =
    let e : suc n + m ≡ suc (n + m) = omega arith in rw e (drop-replicate n m a)

-- A write behind `done` fills the next bytes of the zeros that follow.
pub set_next :
    (done src : Bytes) (n k offset : ℕ)
    → n ≡ length src + k
    → offset ≡ length done
    → set (done ++ zeros n) offset src ≡ ok ((done ++ src) ++ zeros k)
unfolding set
set_next done src n k offset size here =
    let zs : Bytes = zeros (length src + k) in
    let rest : drop (length done + length src) (done ++ zs) ≡ zeros k =
      sym (drop-drop (length done) (length src) (done ++ zs))
      ∙ ap (drop (length src)) (drop-append done zs)
      ∙ drop-replicate (length src) k 0 in
    let zero_byte : ℕ = 0 in
    rw
      (
        size,
        here,
        le→leb (length done + length src) (length (done ++ zs))
            (omega (arith, length-append done zs, length-replicate {0} (length src + k) zero_byte)),
        take-append done zs,
        rest,
      )
      (ap ok (sym (append_assoc done src (zeros k))))

-- A write into an array of zeros that it fills.
pub set-zeros : (src : Bytes) (n : ℕ) → n ≡ length src → set (zeros n) 0 src ≡ ok src
set-zeros src n size = set_next [] src n 0 0 (omega arith) refl ∙ ap ok (append-nil src)

pub set_uint-zeros : (n v : ℕ) → set_uint n (zeros n) 0 v ≡ ok (le_bytes n v)
unfolding set_uint
set_uint-zeros n v = set-zeros (le_bytes n v) n (sym (length-le_bytes n v))

-- The bytes at `offset` are `piece`, and then `rest`.
abbrev pub At : Bytes → ℕ → Bytes → Bytes → Type 0
At data' offset piece rest = drop offset data' ≡ piece ++ rest

pub At-next :
    (data' : Bytes) (offset : ℕ) (piece rest : Bytes)
    → At data' offset piece rest
    → drop (offset + length piece) data' ≡ rest
At-next data' offset piece rest h =
    sym (drop-drop offset (length piece) data')
    ∙ ap (drop (length piece)) h
    ∙ drop-append piece rest

pub slice-At :
    (data' : Bytes) (offset n : ℕ) (piece rest : Bytes)
    → length piece ≡ n
    → At data' offset piece rest
    → slice data' offset (offset + n) ≡ piece
slice-At data' offset n piece rest e h =
    let k : offset + n - offset ≡ length piece = omega arith in rw (k, h) (take-append piece rest)

pub get_uint-At :
    (n : ℕ) (data' : Bytes) (offset v : ℕ) (rest : Bytes)
    → 0 < n
    → v < 256 ^ n
    → At data' offset (le_bytes n v) rest
    → get_uint n data' offset ≡ ok v
unfolding get_uint
get_uint-At n data' offset v rest pos' fits h =
    let len : length data' - offset ≡ n + length rest =
      sym (length-drop offset data')
      ∙ ap length h
      ∙ length-append (le_bytes n v) rest
      ∙ ap (λ k. k + length rest) (length-le_bytes n v) in
    rw (
      le→leb (offset + n) (length data') (omega arith),
      slice-At data' offset n (le_bytes n v) rest (length-le_bytes n v) h,
      le_value-le_bytes n v fits,
    )
