-- ===== src/Rpc/Redaction/Safe.antt =====
-- No provider URL is left in a redacted message.
use parallel_usdp_hyperevm_i.Prelude.{
  and_parts, all, Option-cases, or_right, or_left, inl, inr, ◌++◌, All, some, All, or_cases,
  Bool-cases, none, false, ℕ, Bool, true, not, ◌&&◌, ◌||◌, [], ◌∷◌, ◌==◌, ◌≡◌, refl, arith,
}
use parallel_usdp_hyperevm_i.Prelude.Text.{Text, codes, to_lower}
use parallel_usdp_hyperevm_i.Rpc.Messages.{◌>>=?◌, or_else, after_literal}
use parallel_usdp_hyperevm_i.Rpc.Redaction.{
  opens_with_url_char, marker, redact, is_url_char, scheme_here, url_here, provider_error_message,
}

-- No URL begins at any place of the text.
abbrev pub url_free : Text → Bool
url_free [] = true
url_free (c ∷ cs) = not (url_here (c ∷ cs)) && url_free cs

abbrev is_first : ℕ → Bool
is_first c = b'h' == to_lower c || b'w' == to_lower c

after_literal_miss :
    (p c : ℕ) (ps cs : Text) → (p == to_lower c) ≡ false → after_literal (p ∷ ps) (c ∷ cs) ≡ none
unfolding after_literal
after_literal_miss p c ps cs e = rw e

after_literal_hit :
    (p c : ℕ) (ps cs : Text)
    → (p == to_lower c) ≡ true
    → after_literal (p ∷ ps) (c ∷ cs) ≡ after_literal ps cs
unfolding after_literal
after_literal_hit p c ps cs e = rw e

after_literal-nil : (p : ℕ) (ps : Text) → after_literal (p ∷ ps) [] ≡ none
unfolding after_literal
after_literal-nil p ps = refl

scheme_first :
    (p c : ℕ) (ps cs : Text) → scheme_here (p ∷ ps) (c ∷ cs) ≡ true → (p == to_lower c) ≡ true
unfolding scheme_here
scheme_first p c ps cs h = elim (Bool-cases (p == to_lower c)) [
  | inl same ↦ same
  | inr other ↦ cc (rw (after_literal_miss p c ps cs other) at h)
]

-- A URL begins with an `h` or a `w`.
url_first : (c : ℕ) (cs : Text) → url_here (c ∷ cs) ≡ true → is_first c ≡ true
unfolding url_here
url_first c cs h = elim (or_cases (scheme_here (codes "http") (c ∷ cs)) _ h) [
  | inl http ↦ or_left _ (scheme_first b'h' c (codes "ttp") cs http)
  | inr ws ↦ or_right (b'h' == to_lower c) (scheme_first b'w' c (codes "s") cs ws)
]

not_s : (c : ℕ) → is_first c ≡ true → (b's' == to_lower c) ≡ false
not_s c h = ground arith

first-is_url_char : (c : ℕ) → is_first c ≡ true → is_url_char c ≡ true
unfolding is_url_char to_lower
first-is_url_char c h = ground arith

redact_kept :
    (c : ℕ) (cs : Text) → url_here (c ∷ cs) ≡ false → redact false (c ∷ cs) ≡ c ∷ redact false cs
unfolding redact
redact_kept c cs e = rw (e, redact)

redact_cut :
    (c : ℕ) (cs : Text)
    → url_here (c ∷ cs) ≡ true
    → redact false (c ∷ cs) ≡ marker ++ redact true cs
unfolding redact
redact_cut c cs e = rw (e, redact)

redact-nil : redact false [] ≡ []
unfolding redact
redact-nil = refl

-- A literal that has no bracket is found in a redacted text only where the text itself had it.
after_literal-redact :
    (ps t r : Text)
    → All (λ p. (p == b'[') ≡ false) ps
    → after_literal ps (redact false t) ≡ some r
    → (s : Text) × (after_literal ps t ≡ some s) × (r ≡ redact false s)
after_literal-redact [] t r h e = (t, unfold after_literal in refl, unfold after_literal in cc e)
after_literal-redact (p ∷ ps) [] r h e = cc (rw (redact-nil, after_literal-nil p ps) at e)
after_literal-redact (p ∷ ps) (c ∷ cs) r h e = elim (Bool-cases (url_here (c ∷ cs))) [
  | inl url ↦
      cc (rw (redact_cut c cs url, after_literal_miss p b'[' ps _ (unfold to_lower in h.0)) at e)
  | inr kept ↦ elim (Bool-cases (p == to_lower c)) [
    | inl same ↦
        let (s, found, q) =
          after_literal-redact ps cs r h.1
            (rw (redact_kept c cs kept, after_literal_hit p c ps _ same) at e) in
        (s, rw (after_literal_hit p c ps cs same) found, q)
    | inr other ↦ cc (rw (redact_kept c cs kept, after_literal_miss p c ps _ other) at e)
  ]
]

past_s : Text → Text
past_s t = or_else (after_literal (codes "s") t) t

past_s_hit : (c : ℕ) (cs : Text) → (b's' == to_lower c) ≡ true → past_s (c ∷ cs) ≡ cs
unfolding past_s after_literal
past_s_hit c cs e = rw e

past_s_miss : (c : ℕ) (cs : Text) → (b's' == to_lower c) ≡ false → past_s (c ∷ cs) ≡ c ∷ cs
unfolding past_s after_literal
past_s_miss c cs e = rw e

past_s-redact : (t : Text) → past_s (redact false t) ≡ redact false (past_s t)
past_s-redact [] = unfold redact after_literal past_s in refl
past_s-redact (c ∷ cs) = elim (Bool-cases (url_here (c ∷ cs))) [
  | inl url ↦
      rw (past_s_miss c cs (not_s c (url_first c cs url)), redact_cut c cs url)
        (past_s_miss b'[' _ (unfold to_lower in refl))
  | inr kept ↦ elim (Bool-cases (b's' == to_lower c)) [
    | inl same ↦ rw (redact_kept c cs kept, past_s_hit c cs same) (past_s_hit c _ same)
    | inr other ↦ rw (past_s_miss c cs other, redact_kept c cs kept) (past_s_miss c _ other)
  ]
]

absurd_nil :
    opens_with_url_char (some (redact false [])) ≡ true → opens_with_url_char (some []) ≡ true
unfolding redact
absurd_nil h = h

opens-redact :
    (s : Text)
    → opens_with_url_char (some (redact false s)) ≡ true
    → opens_with_url_char (some s) ≡ true
opens-redact [] h = absurd_nil h
opens-redact (c ∷ cs) h = elim (Bool-cases (url_here (c ∷ cs))) [
  | inl url ↦ first-is_url_char c (url_first c cs url)
  | inr kept ↦ rw (redact_kept c cs kept) at h
]

scheme_here-eq :
    (scheme t : Text)
    → scheme_here scheme t
      ≡ opens_with_url_char
          (after_literal scheme t >>=? λ rest. after_literal (codes "://") (past_s rest))
unfolding scheme_here past_s
scheme_here-eq scheme t = refl

tail-redact :
    (s : Text)
    → opens_with_url_char (after_literal (codes "://") (past_s (redact false s))) ≡ true
    → opens_with_url_char (after_literal (codes "://") (past_s s)) ≡ true
tail-redact s h = elim (Option-cases (after_literal (codes "://") (past_s (redact false s)))) [
  | inl missed ↦ cc (rw missed at h)
  | inr (r, found) ↦
      let (v, e, q) =
        after_literal-redact (codes "://") (past_s s) r (refl, (refl, (refl, tt)))
          (rw (past_s-redact s) at found) in
      rw e (opens-redact v (rw q at (rw found at h)))
]

scheme_here-redact :
    (scheme t : Text)
    → All (λ p. (p == b'[') ≡ false) scheme
    → scheme_here scheme (redact false t) ≡ true
    → scheme_here scheme t ≡ true
scheme_here-redact scheme t plain h = elim (Option-cases (after_literal scheme (redact false t))) [
  | inl missed ↦ cc (rw missed at (rw scheme_here-eq at h))
  | inr (r, found) ↦
      let (s, e, q) = after_literal-redact scheme t r plain found in
      rw (scheme_here-eq scheme t, e)
        (tail-redact s (rw q at (rw found at (rw scheme_here-eq at h))))
]

url_here-redact : (t : Text) → url_here (redact false t) ≡ true → url_here t ≡ true
unfolding url_here
url_here-redact t h = elim (or_cases (scheme_here (codes "http") (redact false t)) _ h) [
  | inl http ↦
      or_left _ (scheme_here-redact (codes "http") t (refl, (refl, (refl, (refl, tt)))) http)
  | inr ws ↦ or_right _ (scheme_here-redact (codes "ws") t (refl, (refl, tt)) ws)
]

-- Text that begins no URL may stand in front.
url_free-append :
    (front t : Text)
    → all (λ c. not (is_first c)) front ≡ true
    → url_free t ≡ true
    → url_free (front ++ t) ≡ true
url_free-append [] t a h = h
url_free-append (c ∷ front) t a h =
    let (plain, later) = and_parts (not (is_first c)) _ a in
    ground (arith, url_first c (front ++ t), url_free-append front t later h)

marker-first : all (λ c. not (is_first c)) marker ≡ true
unfolding to_lower
marker-first = refl

redact_dropped : (c : ℕ) (cs : Text) → is_url_char c ≡ true → redact true (c ∷ cs) ≡ redact true cs
unfolding redact
redact_dropped c cs e = rw (e, redact)

redact_ended :
    (c : ℕ) (cs : Text) → is_url_char c ≡ false → redact true (c ∷ cs) ≡ c ∷ redact false cs
unfolding redact
redact_ended c cs e = rw (e, redact)

url_free-redact_nil : (in_url : Bool) → url_free (redact in_url []) ≡ true
unfolding redact
url_free-redact_nil true = refl
url_free-redact_nil false = refl

url_free-outside :
    (c : ℕ) (t : Text) → is_url_char c ≡ false → url_free t ≡ true → url_free (c ∷ t) ≡ true
url_free-outside c t e h = ground (arith, url_first c t, first-is_url_char c)

url_free-kept :
    (c : ℕ) (cs : Text)
    → url_here (c ∷ cs) ≡ false
    → url_free (redact false cs) ≡ true
    → url_free (c ∷ redact false cs) ≡ true
url_free-kept c cs kept h =
    let back : url_here (c ∷ redact false cs) ≡ true → url_here (c ∷ cs) ≡ true =
      λ e. url_here-redact (c ∷ cs) (rw (redact_kept c cs kept) e) in
    ground (arith, back)

redact-url_free : (in_url : Bool) (t : Text) → url_free (redact in_url t) ≡ true
redact-url_free true [] = url_free-redact_nil true
redact-url_free false [] = url_free-redact_nil false
redact-url_free true (c ∷ cs) = elim (Bool-cases (is_url_char c)) [
  | inl inside ↦ rw (redact_dropped c cs inside) (redact-url_free true cs)
  | inr outside ↦
      rw (redact_ended c cs outside)
        (url_free-outside c (redact false cs) outside (redact-url_free false cs))
]
redact-url_free false (c ∷ cs) = elim (Bool-cases (url_here (c ∷ cs))) [
  | inl url ↦
      rw (redact_cut c cs url)
        (url_free-append marker (redact true cs) marker-first (redact-url_free true cs))
  | inr kept ↦ rw (redact_kept c cs kept) (url_free-kept c cs kept (redact-url_free false cs))
]

-- The message that `providerErrorMessage` returns has a URL of the form that it looks for (http,
-- https, ws or wss, then `://` and a character that is no space, quote or closing bracket) at no
-- place.
pub provider_error_message-url_free :
    (message : Text) → url_free (provider_error_message message) ≡ true
unfolding provider_error_message
provider_error_message-url_free message = redact-url_free false message
