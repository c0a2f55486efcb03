-- ===== src/Session/Address.antt =====
-- The address on the command line: cmd/quic-send/main.go lines 74 to 83 and cmd/quic-bench/main.go
-- lines 23 to 28. `strings.Split` and `strconv.ParseUint` of the Go standard library are written out
-- as documented.
use l4s_poc.Base.{
  ℕ, ◌+◌, ◌-◌, ◌*◌, ◌≡◌, ◌≢◌, refl, ap, ◌⊎◌, inl, inr, List, [], ◌∷◌, Bool, ◌&&◌, Option, none,
  some, ◌==◌, leb, ltb, if◌then◌else◌, Bool-cases,
}
use l4s_poc.Session.{invalid_address, invalid_port, Outcome, returns, exits}

-- Puts a byte before the first part.
abbrev pub onto_first : ℕ → List (List ℕ) → List (List ℕ)
onto_first c [] = (c ∷ []) ∷ []
onto_first c (part ∷ parts) = (c ∷ part) ∷ parts

-- `strings.Split` at a separator of one byte.
pub split : ℕ → List ℕ → List (List ℕ)
split sep [] = [] ∷ []
split sep (c ∷ cs) = let rest = split sep cs in if c == sep then [] ∷ rest else onto_first c rest

pub data NumError : Type 0 where
  syntax out_of_range : NumError

abbrev pub is_digit : ℕ → Bool
is_digit c = leb b'0' c && leb c b'9'

-- The digits that are left, with the value of those before; the first that cannot be taken decides.
pub digits : ℕ → ℕ → List ℕ → ℕ × Option NumError
digits most n [] = (n, none)
digits most n (c ∷ cs) =
    let value = n * 10 + (c - b'0') in
    let rest = digits most value cs in
    if is_digit c
    then (if ltb most value then (most, some out_of_range) else rest)
    else (0, some syntax)

-- `strconv.ParseUint(s, 10, 16)`: with an error the value is 0 or the greatest.
unfoldable pub parse_uint16 : List ℕ → ℕ × Option NumError
unfolding digits
parse_uint16 [] = (0, some syntax)
parse_uint16 (c ∷ cs) = digits 65_535 0 (c ∷ cs)

-- The host and the port of quic-send.
abbrev pub checked_port : List ℕ → ℕ × Option NumError → Outcome (List ℕ × ℕ)
checked_port host (port, none) = returns (host, port)
checked_port host (port, some e) = exits invalid_port

abbrev pub target_of : List (List ℕ) → Outcome (List ℕ × ℕ)
target_of (host ∷ port ∷ []) = checked_port host (parse_uint16 port)
target_of parts = exits invalid_address

unfoldable pub target : List ℕ → Outcome (List ℕ × ℕ)
unfolding split parse_uint16
target addr = target_of (split b':' addr)

-- quic-bench does not look at the error.
abbrev pub unchecked_target_of : List (List ℕ) → Outcome (List ℕ × ℕ)
unchecked_target_of (host ∷ port ∷ []) = returns (host, (parse_uint16 port).0)
unchecked_target_of parts = exits invalid_address

unfoldable pub unchecked_target : List ℕ → Outcome (List ℕ × ℕ)
unfolding split parse_uint16
unchecked_target addr = unchecked_target_of (split b':' addr)

digits_cases :
    (n : ℕ) (cs : List ℕ)
    → ((digits 65_535 n cs).1 ≡ none)
      ⊎ (digits 65_535 n cs ≡ (0, some syntax))
      ⊎ (digits 65_535 n cs ≡ (65_535, some out_of_range))
unfolding digits
digits_cases n [] = inl refl
digits_cases n (c ∷ cs) = elim (Bool-cases (is_digit c)) [
  | inr isnt ↦ inr (inl (rw isnt refl))
  | inl is ↦ elim (Bool-cases (ltb 65_535 (n * 10 + (c - b'0')))) [
    | inl over ↦ inr (inr (rw (is, over) refl))
    | inr fits ↦ rw (is, fits) (digits_cases (n * 10 + (c - b'0')) cs)
  ]
]

parse_uint16_cases :
    (cs : List ℕ)
    → ((parse_uint16 cs).1 ≡ none)
      ⊎ (parse_uint16 cs ≡ (0, some syntax))
      ⊎ (parse_uint16 cs ≡ (65_535, some out_of_range))
unfolding parse_uint16
parse_uint16_cases [] = inr (inl refl)
parse_uint16_cases (c ∷ cs) = digits_cases 0 (c ∷ cs)

checked_port-some :
    (host : List ℕ) (p : ℕ × Option NumError)
    → p.1 ≡ none
    → checked_port host p ≢ exits invalid_port
checked_port-some host (port, none) e h = cc
checked_port-some host (port, some x) e h = cc

-- Where a port cannot be parsed.
abbrev pub GoesOn : Outcome (List ℕ × ℕ) → Type 0
GoesOn r = (host : List ℕ) × ((r ≡ returns (host, 0)) ⊎ (r ≡ returns (host, 65_535)))

parts-GoesOn :
    (parts : List (List ℕ))
    → target_of parts ≡ exits invalid_port
    → GoesOn (unchecked_target_of parts)
parts-GoesOn [] h = cc
parts-GoesOn (a ∷ []) h = cc
parts-GoesOn (host ∷ port ∷ []) h = elim (parse_uint16_cases port) [
  | inl fine ↦ absurd (checked_port-some host (parse_uint16 port) fine h)
  | inr (inl bad) ↦ (host, inl (ap (λ p. returns (host, p.0)) bad))
  | inr (inr over) ↦ (host, inr (ap (λ p. returns (host, p.0)) over))
]
parts-GoesOn (a ∷ b ∷ c ∷ ps) h = cc

-- Where quic-send exits because the port of its address is no number up to 65535, quic-bench goes on
-- with the same address, to port 0 or to port 65535.
pub unchecked_target-target :
    (addr : List ℕ) → target addr ≡ exits invalid_port → GoesOn (unchecked_target addr)
unfolding target unchecked_target
unchecked_target-target addr h = parts-GoesOn (split b':' addr) h
