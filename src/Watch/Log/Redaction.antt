-- ===== src/Watch/Log/Redaction.antt =====
-- The replacement of secrets in a message, in src/watch_log.rs.
use majsoulmanager.Prelude.{
  ℕ, zero, suc, ◌-◌, ◌≡◌, refl, Bool, true, false, not, ◌&&◌, List, [], ◌∷◌, arith, inl, inr,
  length, take, Bool-cases, ◌==◌,
}
use majsoulmanager.Prelude.Text.{Text, text_eq, text_eq_iff, starts_with}
use majsoulmanager.Watch.Log.{contains, replace_from, redact, is_known}

-- No character is a star, which secrets are replaced by.
unfoldable pub is_starless : Text → Bool
is_starless [] = true
is_starless (c ∷ text) = not (c == b'*') && is_starless text

starts_with-replace_from :
    (secret pattern text : Text)
    → is_starless pattern ≡ true
    → starts_with (replace_from secret 0 text) pattern ≡ true
    → starts_with text pattern ≡ true
unfolding is_starless starts_with replace_from
starts_with-replace_from secret [] [] s h = refl
starts_with-replace_from secret [] (x ∷ text) s h = refl
starts_with-replace_from secret (c ∷ pattern) [] s h = h
starts_with-replace_from secret (c ∷ pattern) (x ∷ text) s h =
    ground (arith, starts_with-replace_from secret pattern text)

-- A pattern without stars that stands in a text after a replacement stood there before it.
contains-replace_from :
    (secret : Text) (c : ℕ) (pattern : Text) (skip : ℕ) (text : Text)
    → is_starless (c ∷ pattern) ≡ true
    → contains (c ∷ pattern) (replace_from secret skip text) ≡ true
    → contains (c ∷ pattern) text ≡ true
unfolding contains replace_from starts_with is_starless
contains-replace_from secret c pattern skip [] s h = h
contains-replace_from secret c pattern (suc skip) (x ∷ text) s h =
    ground (arith, contains-replace_from secret c pattern skip text)
contains-replace_from secret c pattern zero (x ∷ text) s h = ground (
  arith,
  contains-replace_from secret c pattern zero text,
  contains-replace_from secret c pattern (length secret - 1) text,
  starts_with-replace_from secret pattern text,
)

-- Nor does the replaced pattern stand there after it.
contains-replace_from_same :
    (c : ℕ) (pattern : Text) (skip : ℕ) (text : Text)
    → is_starless (c ∷ pattern) ≡ true
    → contains (c ∷ pattern) (replace_from (c ∷ pattern) skip text) ≡ false
unfolding contains replace_from starts_with is_starless
contains-replace_from_same c pattern skip [] s = refl
contains-replace_from_same c pattern (suc skip) (x ∷ text) s =
    contains-replace_from_same c pattern skip text s
contains-replace_from_same c pattern zero (x ∷ text) s = ground (
  arith,
  contains-replace_from_same c pattern zero text,
  contains-replace_from_same c pattern (length (c ∷ pattern) - 1) text,
  starts_with-replace_from (c ∷ pattern) pattern text,
)

starts_with-take :
    (n : ℕ) (pattern text : Text)
    → starts_with (take n text) pattern ≡ true
    → starts_with text pattern ≡ true
unfolding starts_with
starts_with-take n [] [] h = refl
starts_with-take n [] (x ∷ text) h = refl
starts_with-take zero (c ∷ pattern) text h = ground arith
starts_with-take (suc n) (c ∷ pattern) [] h = h
starts_with-take (suc n) (c ∷ pattern) (x ∷ text) h =
    ground (arith, starts_with-take n pattern text)

pub contains-take :
    (n : ℕ) (c : ℕ) (pattern text : Text)
    → contains (c ∷ pattern) (take n text) ≡ true
    → contains (c ∷ pattern) text ≡ true
unfolding contains starts_with
contains-take zero c pattern text h = ground arith
contains-take (suc n) c pattern [] h = h
contains-take (suc n) c pattern (x ∷ text) h =
    ground (arith, contains-take n c pattern text, starts_with-take n pattern text)

contains-redact :
    (c : ℕ) (pattern : Text) (secrets : List Text) (message : Text)
    → is_starless (c ∷ pattern) ≡ true
    → contains (c ∷ pattern) (redact secrets message) ≡ true
    → contains (c ∷ pattern) message ≡ true
unfolding redact
contains-redact c pattern [] message s h = h
contains-redact c pattern (secret ∷ secrets) message s h = ground (
  arith,
  contains-redact c pattern secrets (replace_from secret 0 message),
  contains-redact c pattern secrets message,
  contains-replace_from secret c pattern 0 message,
)

pub redact-known :
    (c : ℕ) (pattern : Text) (secrets : List Text) (message : Text)
    → is_starless (c ∷ pattern) ≡ true
    → is_known (c ∷ pattern) secrets ≡ true
    → contains (c ∷ pattern) (redact secrets message) ≡ false
unfolding redact is_known
redact-known c pattern [] message s k = ground arith
redact-known c pattern (secret ∷ secrets) message s k =
    elim (Bool-cases (text_eq secret (c ∷ pattern))) [
      | inl same ↦ rw ((text_eq_iff secret (c ∷ pattern)).0 same) (
          ground (
            arith,
            contains-redact c pattern secrets (replace_from (c ∷ pattern) 0 message),
            contains-redact c pattern secrets message,
            contains-replace_from_same c pattern 0 message,
          ))
      | inr other ↦ ground (
        arith,
        redact-known c pattern secrets (replace_from secret 0 message),
        redact-known c pattern secrets message,
      )
    ]
