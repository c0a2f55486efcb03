-- ===== src/Webrtc/Whip/Leaks.antt =====
-- The peer connections that the handler leaves open.
use l4s_poc.Base.{
  ℕ, ◌+◌, ◌-◌, ◌≡◌, refl, ap, List, [], ◌∷◌, true, Option, none, some, arith, length, All,
  replicate,
}
use mathlib.Core.Path.{subst}
use mathlib.Core.List.{map}
use l4s_poc.Webrtc.Whip.{
  Settings, settings_of, Pion, Request, Response, http_error, Attempt, answers, and_then, error_on,
  handle, response_of, serve,
}

-- A connection has been made, or not.
abbrev pub after_made : {P : Type 0} → Option P → ℕ → ℕ
after_made none n = n
after_made (some pc) n = n + 1

abbrev pub aside : {S A : Type 0} → (S → A × S) → S × ℕ → A × (S × ℕ)
aside m (s, n) = let (a, s') = m s in (a, (s', n))

abbrev pub making : {S P : Type 0} → (S → Option P × S) → S × ℕ → Option P × (S × ℕ)
making m (s, n) = let (pc, s') = m s in (pc, (s', after_made pc n))

-- The same, with the number of connections that are open: those made, less those closed.
abbrev pub counting : {S P D : Type 0} → Pion S P D → Pion (S × ℕ) P D
counting pion = record {
  register_codec = aside pion.register_codec;
  new_pli_interceptor = aside pion.new_pli_interceptor;
  new_peer_connection = λ settings. making (pion.new_peer_connection settings);
  create_data_channel = λ pc. aside (pion.create_data_channel pc);
  register_handlers = λ pc dc w. (pion.register_handlers pc dc w.0, w.1);
  set_remote_description = λ pc offer. aside (pion.set_remote_description pc offer);
  create_answer = λ pc. aside (pion.create_answer pc);
  set_local_description = λ pc answer. aside (pion.set_local_description pc answer);
  gather = λ pc w. (pion.gather pc w.0, w.1);
  local_description = λ pc w. pion.local_description pc w.0;
  close = λ pc w. (pion.close pc w.0, w.1 - 1);
}

-- A pion whose calls succeed up to the remote description.
pub record IsUsable {S P D : Type 0} (pion : Pion S P D) : Type 0 where
  pub registers : (s : S) → (pion.register_codec s).0 ≡ some tt
  pub intercepts : (s : S) → (pion.new_pli_interceptor s).0 ≡ some tt
  pub connects :
      (settings : Settings) (s : S) → (pc : P) × ((pion.new_peer_connection settings s).0 ≡ some pc)
  pub opens : (pc : P) (s : S) → (dc : D) × ((pion.create_data_channel pc s).0 ≡ some dc)

-- The request of an offer.
abbrev pub posted : List ℕ → Request
posted offer = record { is_post = true; body = some offer }

-- A step that succeeds.
passes :
    {S A B : Type 0} (Q : Attempt B × S → Type 0) (status : ℕ) (f : A → S → Attempt B × S)
    (r : Option A × S) (a : A)
    → r.0 ≡ some a
    → Q (f a r.1)
    → Q (and_then f (error_on status r))
passes Q status f (none, s) a e q = cc
passes Q status f (some b, s) a e q = let same : a ≡ b = cc in subst (λ x. Q (f x s)) same q

-- A step that fails.
stops :
    {S A B : Type 0} (Q : Attempt B × S → Type 0) (status : ℕ) (f : A → S → Attempt B × S)
    (r : Option A × S)
    → r.0 ≡ none
    → Q (answers (http_error status), r.1)
    → Q (and_then f (error_on status r))
stops Q status f (none, s) e q = q
stops Q status f (some b, s) e q = cc

module _ {S P D : Type 0} (pion : Pion S P D) (usable : IsUsable pion) where
  -- A refused offer is answered with 400, and its connection stays open.
  abbrev IsRefused : ℕ → Attempt Response × (S × ℕ) → Type 0
  IsRefused n x = ((response_of x).0 ≡ http_error 400) × ((response_of x).1.1 ≡ n + 1)

  handle-IsRefused :
      (path ip offer : List ℕ) (w : S × ℕ)
      → ((pc : P) (t : S) → (pion.set_remote_description pc offer t).0 ≡ none)
      → IsRefused w.1 (handle (counting pion) path ip (posted offer) w)
  unfolding handle
  handle-IsRefused path ip offer (s, n) refuses =
      let Q = IsRefused n in
      let s1 = (pion.register_codec s).1 in
      let s2 = (pion.new_pli_interceptor s1).1 in
      let (pc, made) = usable.connects (settings_of ip) s2 in
      let s3 = (pion.new_peer_connection (settings_of ip) s2).1 in
      let (dc, has) = usable.opens pc s3 in
      let s4 = pion.register_handlers pc dc (pion.create_data_channel pc s3).1 in
      let one_more = ap (λ p. after_made p n) made in
      passes Q 500 _ (aside pion.register_codec (s, n)) tt (usable.registers s) (
        passes Q 500 _ (aside pion.new_pli_interceptor (s1, n)) tt (usable.intercepts s1) (
          passes Q 500 _ (making (pion.new_peer_connection (settings_of ip)) (s2, n)) pc made (
            passes Q 500 _ (aside (pion.create_data_channel pc) (s3, _)) dc has (
              stops Q 400 _ (aside (pion.set_remote_description pc offer) (s4, _)) (refuses pc s4)
                (refl, one_more)))))

  -- Where pion makes connections but refuses the offers, the handler answers each request with status
  -- 400, and the connections that are open, those made less those closed, are one more after each
  -- request: the handler does not close the one that it has made.
  pub serve-refused :
      (path ip : List ℕ) (offers : List (List ℕ)) (s : S) (n : ℕ)
      → All (λ offer. (pc : P) (t : S) → (pion.set_remote_description pc offer t).0 ≡ none) offers
      → ((serve (counting pion) path ip (map posted offers) (s, n)).0
          ≡ replicate (length offers) (http_error 400))
        × ((serve (counting pion) path ip (map posted offers) (s, n)).1.1 ≡ n + length offers)
  unfolding serve
  serve-refused path ip [] s n refuses = (refl, omega arith)
  serve-refused path ip (offer ∷ offers) s n refuses =
      let (answer, open_) = handle-IsRefused path ip offer (s, n) refuses.0 in
      let w = (response_of (handle (counting pion) path ip (posted offer) (s, n))).1 in
      let (rest, more) = serve-refused path ip offers w.0 w.1 refuses.1 in
      ((λ i. answer i ∷ rest i), omega (arith, more, open_))
