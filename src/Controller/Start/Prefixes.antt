-- ===== src/Controller/Start/Prefixes.antt =====
-- Which addresses are offered to agents, as ranges of addresses.
use Prim.Native.Nat.{◌/◌}
use that_goes_there.Prelude.{ℕ, ◌+◌, ◌*◌, ◌^◌, ◌<◌, ◌≡◌, ◌↔◌, ◌⊎◌, true, arith}
use that_goes_there.Controller.Start.{v4, is_skipped}

-- The 32 bits of an IPv4 address.
abbrev pub bits : ℕ → ℕ → ℕ → ℕ → ℕ
bits a b c d = ((a * 256 + b) * 256 + c) * 256 + d

-- An IPv4 address with octets below 256 is kept from agents exactly if it is in 127.0.0.0/8, in
-- 169.254.0.0/16 or in 172.16.0.0/12.
pub is_skipped-ranges :
    (a b c d : ℕ)
    → a < 256
    → b < 256
    → c < 256
    → d < 256
    → (is_skipped (v4 a b c d) ≡ true) ↔ (
        (bits a b c d / 2 ^ 24 ≡ 127)
        ⊎ ((bits a b c d / 2 ^ 16 ≡ 169 * 256 + 254) ⊎ (bits a b c d / 2 ^ 20 ≡ 172 * 16 + 1)))
unfolding is_skipped
is_skipped-ranges a b c d ha hb hc hd = (λ h. ground arith, λ h. ground arith)
