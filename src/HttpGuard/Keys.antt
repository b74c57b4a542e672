-- ===== src/HttpGuard/Keys.antt =====
-- The client's key is bounded.
use Prim.Native.String.{count}
use stockassist.Common.{
  ℕ, zero, suc, ◌≤◌, ◌≡◌, String, Bool, true, false, not, ◌&&◌, ◌==◌, string_eq, leb, Bool-cases,
  Option-cases, inl, inr, Option, some, arith,
}
use text.Mathlib.TextLemmas.{length-cons}
use stockassist.HttpGuard.{Request, client_ip_key, take_chars, has_char}

count-take_chars : (n : ℕ) (s : String) → count (take_chars n s) ≤ n
unfolding take_chars
count-take_chars zero s = omega arith
count-take_chars (suc n) String.[] = omega arith
count-take_chars (suc n) (String.◌∷◌ c s) =
    omega (arith, length-cons c (take_chars n s), count-take_chars n s)

trimmed :
    (given : ℕ) (kept : ℕ) (empty scoped : Bool)
    → (leb given 64 && not empty && not scoped) ≡ true
    → kept ≤ given
    → (kept ≤ 64) × (scoped ≡ false)
trimmed given kept empty scoped h k = (ground arith, ground arith)

-- The key under which a client is counted has at most 64 characters, whatever its headers and its
-- host are: `strip` makes a text no longer, and the address that stands in a text of at most 64
-- characters without a scope is written in at most 45 characters.
pub count-client_ip_key :
    (strip : String → String) (ip_address : String → Option String)
    → ((s : String) → count (strip s) ≤ count s)
    → ((s ip : String)
        → count s ≤ 64
        → has_char 37 s ≡ false
        → ip_address s ≡ some ip
        → count ip ≤ 45)
    → (trusted : Bool) (q : Request) → count (client_ip_key strip ip_address trusted q) ≤ 64
unfolding client_ip_key
count-client_ip_key strip ip_address shorter short false q = count-take_chars 64 _
count-client_ip_key strip ip_address shorter short true q = elim (Option-cases q.x_real_ip) [
  | inl absent ↦ rw (absent, client_ip_key) (count-take_chars 64 _)
  | inr (real_ip, given) ↦
      elim (Bool-cases (
        leb (count real_ip) 64 && not (strip real_ip == "") && not (has_char 37 (strip real_ip)))) [
          | inr e ↦ rw (given, e, client_ip_key) (count-take_chars 64 _)
          | inl e ↦ elim (Option-cases (ip_address (strip real_ip))) [
            | inl bad ↦ rw (given, e, bad, client_ip_key) (count-take_chars 64 _)
            | inr (ip, parsed) ↦
                let (fits, plain) =
                  trimmed (count real_ip) (count (strip real_ip)) (strip real_ip == "")
                    (has_char 37 (strip real_ip)) e (shorter real_ip) in
                rw (given, e, parsed, client_ip_key)
                  (omega (arith, short (strip real_ip) ip fits plain parsed))
          ]
        ]
]
