-- ===== src/HttpGuard/Groups.antt =====
-- What needs the analysis key is expensive.
use stockassist.Common.{
  ◌≡◌, refl, String, Bool, true, false, ◌&&◌, ◌||◌, ◌==◌, string_eq, if◌then◌else◌, arith,
}
use text.Mathlib.Text.{starts_with}
use stockassist.CorporateActions.{contains}
use stockassist.HttpGuard.{
  Request, is_expensive, is_protected_analysis_request, group_of, limit_of, RateSettings,
  protected_posts, expensive_posts, expensive_suffixes, protected_suffixes, ends_with_any,
  rstrip_slash,
}

posts_included :
    (path : String) → contains protected_posts path ≡ true → contains expensive_posts path ≡ true
unfolding protected_posts expensive_posts
posts_included path h = ground (arith, h)

-- The two tuples are kept apart; each suffix of the one is in the other.
suffixes_included :
    (path : String)
    → ends_with_any path protected_suffixes ≡ true
    → ends_with_any path expensive_suffixes ≡ true
unfolding protected_suffixes expensive_suffixes
suffixes_included path h = h

guarded :
    (admin post get listed suffix : Bool)
    → (if admin then false else post && listed || get && suffix) ≡ true
    → (post && listed || suffix) ≡ true
guarded admin post get listed suffix h = ground arith

weaken :
    (post listed wide b c d e f suffix long : Bool)
    → (listed ≡ true → wide ≡ true)
    → (suffix ≡ true → long ≡ true)
    → (post && listed || suffix) ≡ true
    → (post && wide || b || c || d || e || f || long) ≡ true
weaken post true wide b c d e f true long w l h = ground (arith, w refl, l refl)
weaken post true wide b c d e f false long w l h = ground (arith, w refl)
weaken post false wide b c d e f true long w l h = ground (arith, l refl)
weaken post false wide b c d e f false long w l h = ground arith

-- A request that needs the analysis key is counted as an expensive one.
pub is_protected-is_expensive :
    (q : Request) → is_protected_analysis_request q ≡ true → is_expensive q ≡ true
unfolding is_expensive is_protected_analysis_request
is_protected-is_expensive q h =
    let path = rstrip_slash q.path in
    weaken (q.method == "POST") (contains protected_posts path) _ _ _ _ _ _
      (ends_with_any path protected_suffixes) (ends_with_any path expensive_suffixes)
      (posts_included path) (suffixes_included path)
      (guarded (starts_with path "/api/v1/admin/") (q.method == "POST") (q.method == "GET")
        (contains protected_posts path) (ends_with_any path protected_suffixes) h)

pub protected-group_of :
    (q : Request) → is_protected_analysis_request q ≡ true → group_of q ≡ "expensive"
unfolding group_of
protected-group_of q h = rw (is_protected-is_expensive q h) refl

pub protected-limit_of :
    (settings : RateSettings) (q : Request)
    → is_protected_analysis_request q ≡ true
    → limit_of settings q ≡ settings.expensive_limit
unfolding limit_of
protected-limit_of settings q h = rw (is_protected-is_expensive q h) refl
