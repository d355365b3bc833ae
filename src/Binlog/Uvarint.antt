-- ===== src/Binlog/Uvarint.antt =====
-- binlog/binlog.go: what it relies on of the lengths' encoding.
use tunnelcat_server.Base.{
  nat_eq, ℕ, zero, suc, ◌+◌, ◌*◌, ◌/◌, ◌%◌, ◌^◌, ◌<◌, ◌≡◌, ap, false, ◌++◌, some, ltb, eqb, length,
  arith, Bool-cases, inl, inr,
}
use tunnelcat_server.Base.Bytes.{Bytes}
use tunnelcat_server.Binlog.{append_uvarint, uvarint_from, uvarint}

group_value : (q r s : ℕ) → r * s + q * (s * 128) ≡ (r + q * 128) * s
group_value q r s = grind arith

-- The lowest group and the rest, each at its place.
value_step : (x v s : ℕ) → x + v % 128 * s + v / 128 * (s * 128) ≡ x + v * s
value_step x v s =
    let e : v % 128 + v / 128 * 128 ≡ v = omega arith in
    omega (arith, group_value (v / 128) (v % 128) s, ap (λ (u : ℕ). u * s) e)

uvarint_from-append_uvarint :
    (k i x scale v : ℕ) (bs : Bytes)
    → i + k ≡ 9
    → v < 2 * 128 ^ k
    → uvarint_from i x scale (append_uvarint k v ++ bs)
      ≡ some (x + v * scale, i + length (append_uvarint k v))
unfolding uvarint_from append_uvarint
uvarint_from-append_uvarint zero i x scale v bs e h = ground arith
uvarint_from-append_uvarint (suc k) i x scale v bs e h = elim (Bool-cases (ltb v 128)) [
  | inl p ↦ rw p (ground arith)
  | inr p ↦
      let ten : eqb i 10 ≡ false = ground arith in
      let high : ltb (v % 128 + 128) 128 ≡ false = ground arith in
      let low : (v % 128 + 128) % 128 ≡ v % 128 = omega arith in
      rw p (
        rw (ten, high, low)
          (rw
            (uvarint_from-append_uvarint k (suc i) (x + v % 128 * scale) (scale * 128) (v / 128) bs
              (omega arith) (omega arith))
            (rw (value_step x v scale) (ground arith))))
]

pub uvarint-append_uvarint :
    (v : ℕ) (bs : Bytes)
    → v < 2 ^ 64
    → uvarint (append_uvarint 9 v ++ bs) ≡ some (v, length (append_uvarint 9 v))
unfolding uvarint
uvarint-append_uvarint v bs h =
    rw (uvarint_from-append_uvarint 9 0 0 1 v bs (omega arith) (omega arith)) (ground arith)
