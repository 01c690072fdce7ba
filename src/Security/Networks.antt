-- ===== src/Security/Networks.antt =====
-- infomesh/security.py, `_is_blocked_ip`: the addresses that are blocked.
use infomesh.Prelude.{
  ℕ, ◌+◌, ◌-◌, ◌*◌, ◌/◌, ◌^◌, ◌<◌, ◌≡◌, refl, Bool, false, ◌&&◌, ◌||◌, arith, nat_eq, ◌==◌, leb,
}
use infomesh.Security.{ipv4, ipv6, blocked_networks, in_network, in_any, is_blocked_ip}
use native.Mathlib.Nat.{le-div_iff_mul-le, div-lt_iff_lt-mul, add-mul}

-- An address of the form a.b.c.d.
abbrev pub dotted : ℕ → ℕ → ℕ → ℕ → ℕ
dotted a b c d = (a * 256 + b) * 65536 + c * 256 + d

-- The blocked addresses of version 4, range by range.
unfoldable pub blocked_range : ℕ → Bool
blocked_range a =
    leb (dotted 0 0 0 0) a && leb a (dotted 0 255 255 255)
    || (leb (dotted 10 0 0 0) a && leb a (dotted 10 255 255 255)
        || (leb (dotted 127 0 0 0) a && leb a (dotted 127 255 255 255)
            || (leb (dotted 169 254 0 0) a && leb a (dotted 169 254 255 255)
                || (leb (dotted 172 16 0 0) a && leb a (dotted 172 31 255 255)
                    || (leb (dotted 192 0 0 0) a && leb a (dotted 192 0 0 255)
                        || (leb (dotted 192 0 2 0) a && leb a (dotted 192 0 2 255)
                            || (leb (dotted 192 168 0 0) a && leb a (dotted 192 168 255 255)
                                || (leb (dotted 198 18 0 0) a && leb a (dotted 198 19 255 255)
                                    || (leb (dotted 198 51 100 0) a && leb a (dotted 198 51 100 255)
                                        || (leb (dotted 203 0 113 0) a
                                              && leb a (dotted 203 0 113 255)
                                            || leb (dotted 224 0 0 0) a
                                              && leb a (dotted 255 255 255 255)))))))))))

abbrev between : ℕ → ℕ → ℕ → Bool
between low high a = leb low a && leb a high

-- The bits of a prefix are those of the first address exactly between the first address and the last.
prefix-between :
    (a q size : ℕ) → 0 < size → (a / size == q) ≡ between (q * size) (q * size + (size - 1)) a
prefix-between a q size pos = ground (
  arith,
  le-div_iff_mul-le {k = size} {x = q} {y = a} pos,
  div-lt_iff_lt-mul {k = size} {x = a} {y = q + 1} pos,
  add-mul q 1 size,
)

-- the two networks and the broadcast address at the upper end
upper_end :
    (a : ℕ)
    → a < 2 ^ 32
    → (between (dotted 224 0 0 0) (dotted 239 255 255 255) a
        || (between (dotted 240 0 0 0) (dotted 255 255 255 255) a
            || (a / 1 == 2 ^ 32 - 1 || false)))
      ≡ between (dotted 224 0 0 0) (dotted 255 255 255 255) a
upper_end a h = ground arith

-- Over the addresses of version 4, the networks block exactly these ranges.
pub is_blocked_ip-ipv4 : (a : ℕ) → a < 2 ^ 32 → is_blocked_ip (ipv4 a) ≡ blocked_range a
unfolding is_blocked_ip in_network in_any blocked_networks blocked_range
is_blocked_ip-ipv4 a h =
    let pre : (q size : ℕ)
        → 0 < size
        → (a / size == q) ≡ between (q * size) (q * size + (size - 1)) a =
      prefix-between a in
    rw
      (
        pre 0 (2 ^ 24) (omega arith),
        pre 10 (2 ^ 24) (omega arith),
        pre 127 (2 ^ 24) (omega arith),
        pre 43518 (2 ^ 16) (omega arith),
        pre 2753 (2 ^ 20) (omega arith),
        pre 12582912 (2 ^ 8) (omega arith),
        pre 12582914 (2 ^ 8) (omega arith),
        pre 49320 (2 ^ 16) (omega arith),
        pre 25353 (2 ^ 17) (omega arith),
        pre 12989284 (2 ^ 8) (omega arith),
        pre 13303921 (2 ^ 8) (omega arith),
        pre 14 (2 ^ 28) (omega arith),
        pre 15 (2 ^ 28) (omega arith),
        upper_end a h,
      )
      refl

-- An address of version 4 in the form ::ffff:a.b.c.d is blocked never, whatever it is.
pub is_blocked_ip-mapped : (a : ℕ) → a < 2 ^ 32 → is_blocked_ip (ipv6 (0xffff * 2 ^ 32 + a)) ≡ false
unfolding is_blocked_ip in_network in_any blocked_networks
is_blocked_ip-mapped a h = ground arith
