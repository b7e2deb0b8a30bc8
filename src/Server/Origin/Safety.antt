-- ===== src/Server/Origin/Safety.antt =====
-- The headers of a request, in the origin and in the sitemap.
use purels.Analytics.Patterns.{is_digit}
use purels.Analytics.Safety.{
  IsSafe, IsSafeRegex, digit-IsSafe, host_unit-IsSafe, safe_unit, safe_unit_sound, unit-IsSafe,
}
use purels.Base.{
  &&_true, All, All-append, Bool, Bool-cases, [], arith, every, false, if◌then◌else◌, inl, inr,
  refl, true, ◌++◌, ◌∷◌, ◌≡◌, ◌⊎◌,
}
use purels.Js.Headers.{Entries}
use purels.Js.Regex.{cls, test}
use purels.Js.Regex.Meaning.{Accepts, Accepts-All, IsCovered-rep, test_sound}
use purels.Js.Text.{Text, is_space, same, text}
use purels.Server.Origin.{
  SitemapEntry, fallback_origin, host_pattern, request_host, request_origin, request_proto, sitemap,
  sitemap_languages,
}

host_pattern-IsSafe : IsSafeRegex host_pattern
host_pattern-IsSafe = (
  (host_unit-IsSafe, host_unit-IsSafe),
  (
    tt,
    (
      unit-IsSafe b':' (unfold is_space in refl),
      IsCovered-rep IsSafe 1 4 (cls is_digit) (digit-IsSafe b'0' (omega arith)),
    ),
  ),
)

-- A fixed text is safe if each of its units is.
fixed-IsSafe : (s : Text) → every safe_unit s ≡ true → All IsSafe s
fixed-IsSafe [] h = tt
fixed-IsSafe (c ∷ s) h =
    let (k, ks) = (&&_true (safe_unit c) (every safe_unit s)).0 h in
    (safe_unit_sound c k, fixed-IsSafe s ks)

-- The origin is the fallback, or a scheme and a host of the pattern.
abbrev pub IsOrigin : Text → Type 0
IsOrigin o =
    (o ≡ fallback_origin)
    ⊎ ((host : Text) × Accepts host_pattern host
        × ((o ≡ text "http://" ++ host) ⊎ (o ≡ text "https://" ++ host)))

request_origin-IsOrigin : (incoming : Entries) → IsOrigin (request_origin incoming)
unfolding request_origin
request_origin-IsOrigin incoming = elim (Bool-cases (test host_pattern (request_host incoming))) [
  | inr bad ↦ rw bad (inl refl)
  | inl good ↦ rw good (
      inr (
        request_host incoming,
        test_sound (request_host incoming) host_pattern good,
        scheme (same (request_proto incoming) (text "https")),
      ))
]
  where
    scheme :
        (b : Bool)
        → ((if b then text "https" else text "http") ++ (text "://" ++ request_host incoming)
            ≡ text "http://" ++ request_host incoming)
          ⊎ ((if b then text "https" else text "http") ++ (text "://" ++ request_host incoming)
              ≡ text "https://" ++ request_host incoming)
    scheme true = inr refl
    scheme false = inl refl

IsOrigin-IsSafe : (o : Text) → IsOrigin o → All IsSafe o
IsOrigin-IsSafe o (inl e) = rw e (fixed-IsSafe fallback_origin (unfold is_space in refl))
IsOrigin-IsSafe o (inr (host, a, inl e)) = rw e (
    All-append IsSafe (text "http://") host
      (fixed-IsSafe (text "http://") (unfold is_space in refl))
      (Accepts-All IsSafe a host_pattern-IsSafe))
IsOrigin-IsSafe o (inr (host, a, inr e)) = rw e (
    All-append IsSafe (text "https://") host
      (fixed-IsSafe (text "https://") (unfold is_space in refl))
      (Accepts-All IsSafe a host_pattern-IsSafe))

-- Whatever headers a request has, its origin is the fallback or an http or https URL of a host
-- that matches the pattern, and it holds no quote, angle bracket, backslash, backtick or white
-- space.
pub request_origin-IsSafe :
    (incoming : Entries) → IsOrigin (request_origin incoming) × All IsSafe (request_origin incoming)
request_origin-IsSafe incoming = (
  request_origin-IsOrigin incoming,
  IsOrigin-IsSafe (request_origin incoming) (request_origin-IsOrigin incoming),
)

abbrev pub HasSafeUrls : SitemapEntry → Type 0
HasSafeUrls e = All IsSafe e.url × All (λ l. All IsSafe l.1) e.languages

under_origin :
    (incoming : Entries) (path : Text)
    → every safe_unit path ≡ true
    → All IsSafe (request_origin incoming ++ path)
under_origin incoming path h =
    All-append IsSafe (request_origin incoming) path (request_origin-IsSafe incoming).1
      (fixed-IsSafe path h)

languages-IsSafe :
    (incoming : Entries) → All (λ l. All IsSafe l.1) (sitemap_languages (request_origin incoming))
languages-IsSafe incoming = (
  under_origin incoming (text "/i18n/en") (unfold is_space in refl),
  (
    under_origin incoming (text "/i18n/zh-CN") (unfold is_space in refl),
    (under_origin incoming (text "/") (unfold is_space in refl), tt),
  ),
)

-- The same of every URL in the sitemap, alternates included.
pub sitemap-HasSafeUrls : (incoming : Entries) → All HasSafeUrls (sitemap incoming)
unfolding sitemap
sitemap-HasSafeUrls incoming =
    let langs = languages-IsSafe incoming in
    ((langs.1.1.0, langs), ((langs.0, langs), ((langs.1.0, langs), tt)))
