-- ===== src/EcnConn/Oob.antt =====
-- Which control message the ECN mark of a datagram is taken from.
use l4s_poc.Base.{
  ℕ, ◌%◌, ◌≤◌, ◌≡◌, refl, ◌∙◌, List, [], ◌∷◌, ◌++◌, ◌&&◌, ◌⊎◌, inl, inr, Option, none, some, All,
  arith, ◌==◌, leb, length, get_or, Bool-cases,
}
use l4s_poc.EcnConn.{
  Cmsg, ipproto_ip, ip_tos, ipproto_ipv6, ipv6_tclass, ecn_of_cmsgs, parse_ecn_from_oob,
}

-- An IP_TOS message with a byte of data, or an IPV6_TCLASS message with four.
abbrev pub Carries : Cmsg → Type 0
Carries c =
    ((c.level ≡ 0) × (c.kind ≡ 1) × (1 ≤ length c.bytes))
    ⊎ ((c.level ≡ 41) × (c.kind ≡ 67) × (4 ≤ length c.bytes))

skip : (c : Cmsg) (cs : List Cmsg) → ¬ Carries c → ecn_of_cmsgs (c ∷ cs) ≡ ecn_of_cmsgs cs
unfolding ecn_of_cmsgs
skip c cs h =
    let tos = c.level == ipproto_ip && (c.kind == ip_tos && leb 1 (length c.bytes)) in
    let class_ = c.level == ipproto_ipv6 && (c.kind == ipv6_tclass && leb 4 (length c.bytes)) in
    elim (Bool-cases tos) [
      | inl is ↦ absurd (h (inl (ground arith)))
      | inr not_tos ↦ elim (Bool-cases class_) [
        | inl is ↦ absurd (h (inr (ground arith)))
        | inr not_class ↦ rw (not_tos, not_class) refl
      ]
    ]

take_mark : (c : Cmsg) (cs : List Cmsg) → Carries c → ecn_of_cmsgs (c ∷ cs) ≡ get_or c.bytes 0 0 % 4
unfolding ecn_of_cmsgs
take_mark c cs h = ground arith

first_mark :
    (pre : List Cmsg) (c : Cmsg) (post : List Cmsg)
    → All (λ d. ¬ Carries d) pre
    → Carries c
    → ecn_of_cmsgs (pre ++ (c ∷ post)) ≡ get_or c.bytes 0 0 % 4
first_mark [] c post none_before h = take_mark c post h
first_mark (d ∷ pre) c post none_before h =
    skip d (pre ++ (c ∷ post)) none_before.0 ∙ first_mark pre c post none_before.1 h

no_mark : (cs : List Cmsg) → All (λ d. ¬ Carries d) cs → ecn_of_cmsgs cs ≡ 0
no_mark [] h = unfold ecn_of_cmsgs in refl
no_mark (c ∷ cs) h = skip c cs h.0 ∙ no_mark cs h.1

-- There is nothing to take a mark from: the control data cannot be parsed, or no message carries one.
abbrev pub IsSilent : Option (List Cmsg) → Type 0
IsSilent none = Unit
IsSilent (some cs) = All (λ d. ¬ Carries d) cs

module _ (parse : List ℕ → Option (List Cmsg)) (oob : List ℕ) where
  -- The mark is the lower two bits of the first control message that carries a TOS byte or a traffic
  -- class, whatever stands before and behind it.
  pub parse_ecn_from_oob-first :
      (pre post : List Cmsg) (c : Cmsg)
      → parse oob ≡ some (pre ++ (c ∷ post))
      → All (λ d. ¬ Carries d) pre
      → Carries c
      → parse_ecn_from_oob parse oob ≡ get_or c.bytes 0 0 % 4
  unfolding parse_ecn_from_oob
  parse_ecn_from_oob-first pre post c e none_before h =
      rw (e, parse_ecn_from_oob) (first_mark pre c post none_before h)

  -- The mark is 0, not ECT, where no control message carries a TOS byte or a traffic class, and where
  -- the control data cannot be parsed.
  pub parse_ecn_from_oob-silent : IsSilent (parse oob) → parse_ecn_from_oob parse oob ≡ 0
  unfolding parse_ecn_from_oob
  parse_ecn_from_oob-silent h = go (parse oob) refl h
    where
      go : (r : Option (List Cmsg)) → parse oob ≡ r → IsSilent r → parse_ecn_from_oob parse oob ≡ 0
      go none e silent = rw (e, parse_ecn_from_oob) refl
      go (some cs) e silent = rw (e, parse_ecn_from_oob) (no_mark cs silent)
