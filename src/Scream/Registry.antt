-- ===== src/Scream/Registry.antt =====
-- The registry of senders: which sender the library's callback finds.
use l4s_poc.Base.{
  ℕ, zero, suc, ◌<◌, ◌≡◌, ◌≢◌, refl, sym, ap, ◌∙◌, List, [], ◌∷◌, ◌++◌, Bool, false, ◌⊎◌, inl, inr,
  Option, none, some, arith, ◌==◌, length, get_elem?, Bool-cases, ==_iff, ==-refl, ==-ne,
}
use mathlib.Core.Option
use l4s_poc.Store.{
  lookup, delete, modify, lookup-delete, lookup-insert, get_elem?-modify, get_elem?-append_left,
  get_elem?-append_end,
}
use l4s_poc.Scream.{Api, Sender, World, address, find_sender, new_sender, release, close_sender}

-- The registry has just the open senders, each under the address of its own callback data, which is
-- not the null pointer.
pub record IsValid {S : Type 0} (w : World S) : Type 0 where
  pub owned :
      (p i : ℕ)
      → lookup p w.registry ≡ some i
      → (s : Sender) × (get_elem? w.senders i ≡ some s) × (s.cb_data ≡ some p)
  pub registered :
      (i : ℕ) (s : Sender) (p : ℕ)
      → get_elem? w.senders i ≡ some s
      → s.cb_data ≡ some p
      → lookup p w.registry ≡ some i
  pub no_null : lookup 0 w.registry ≡ none

get_elem?-lt : (ss : List Sender) (i : ℕ) (s : Sender) → get_elem? ss i ≡ some s → i < length ss
get_elem?-lt [] i s h = cc
get_elem?-lt (x ∷ ss) zero s h = omega arith
get_elem?-lt (x ∷ ss) (suc i) s h = omega (arith, get_elem?-lt ss i s h)

get_elem?-append_cases :
    (ss : List Sender) (x : Sender) (i : ℕ) (s : Sender)
    → get_elem? (ss ++ (x ∷ [])) i ≡ some s
    → (get_elem? ss i ≡ some s) ⊎ ((i ≡ length ss) × (x ≡ s))
get_elem?-append_cases [] x zero s h = inr (refl, cc)
get_elem?-append_cases [] x (suc i) s h = cc
get_elem?-append_cases (y ∷ ss) x zero s h = inl h
get_elem?-append_cases (y ∷ ss) x (suc i) s h = elim (get_elem?-append_cases ss x i s h) [
  | inl old ↦ inl old
  | inr (here, same) ↦ inr (ap suc here, same)
]

module _ {S : Type 0} (api : Api S) where
  -- NewSender keeps the registry true: it has just the open senders, each under its own callback
  -- data; if `malloc` gives neither a null pointer nor the callback data of an open sender.
  pub new_sender-IsValid :
      (ssrc : ℕ) (args : List ℕ) (has_callback : Bool) (w : World S)
      → IsValid w
      → 0 < (api.malloc 1 w.c).0
      → lookup (api.malloc 1 w.c).0 w.registry ≡ none
      → IsValid (new_sender api ssrc args has_callback w).1
  unfolding new_sender
  new_sender-IsValid ssrc args has_callback w v positive fresh =
      let q = (api.malloc 1 w.c).0 in
      let n = length w.senders in
      let made : Sender = record { ssrc = ssrc; has_callback = has_callback; cb_data = some q } in
      record {
        owned = λ p i e. elim (Bool-cases (q == p)) [
          | inl same ↦ (
            made,
            ap (λ k. get_elem? (w.senders ++ (made ∷ [])) k)
                  (cc (lookup-insert q p n w.registry, same))
                ∙ get_elem?-append_end w.senders made,
            ap some ((==_iff q p).0 same),
          )
          | inr differs ↦
              (let (s, at_i, has) = v.owned p i (cc (lookup-insert q p n w.registry, differs)) in
                (
                  s,
                  get_elem?-append_left w.senders (made ∷ []) i (get_elem?-lt w.senders i s at_i)
                      ∙ at_i,
                  has,
                ))
        ];
        registered = λ i s p e has. elim (get_elem?-append_cases w.senders made i s e) [
          | inl old ↦
              (let was = v.registered i s p old has in
                lookup-insert q p n w.registry ∙ rw (==-ne q p (λ eq. cc)) was)
          | inr (here, same) ↦
              (let eq : q ≡ p = cc in
                lookup-insert q p n w.registry ∙ rw (eq, ==-refl p) (ap some (sym here)))
        ];
        no_null = lookup-insert q 0 n w.registry ∙ rw (==-ne q 0 (omega arith)) v.no_null;
      }

  -- What Close makes of the world.
  abbrev closed : ℕ → Sender → World S → World S
  closed i s w = record {
    registry = delete (address s.cb_data) w.registry;
    senders = modify i (λ (t : Sender). record t { cb_data = none }) w.senders;
    c = release api s.cb_data w.c;
  }

  close_sender-some :
      (i : ℕ) (s : Sender) (w : World S)
      → get_elem? w.senders i ≡ some s
      → close_sender api i w ≡ closed i s w
  unfolding close_sender
  close_sender-some i s w e = rw (e, close_sender) refl

  close_sender-none :
      (i : ℕ) (w : World S) → get_elem? w.senders i ≡ none → close_sender api i w ≡ w
  unfolding close_sender
  close_sender-none i w e = rw (e, close_sender) refl

  -- Only the sender itself has its callback data registered.
  address_apart :
      (i j : ℕ) (s : Sender) (p : ℕ) (w : World S)
      → IsValid w
      → get_elem? w.senders i ≡ some s
      → i ≢ j
      → lookup p w.registry ≡ some j
      → address s.cb_data ≢ p
  address_apart i j s p w v e apart found = go s.cb_data refl
    where
      go : (d : Option ℕ) → s.cb_data ≡ d → address d ≢ p
      go none has same = cc (v.no_null)
      go (some q) has same = let mine = v.registered i s q e has in apart cc

  -- A sender that is closed has no callback data left.
  closed-none :
      (i : ℕ) (s t : Sender) (w : World S)
      → get_elem? (closed i s w).senders i ≡ some t
      → t.cb_data ≡ none
  closed-none i s t w h = go (get_elem? w.senders i) (
      sym h
      ∙ get_elem?-modify i i (λ (u : Sender). record u { cb_data = none }) w.senders
      ∙ rw (==-refl i) refl)
    where
      go :
          (o : Option Sender)
          → some t ≡ Option.map (λ (u : Sender). record u { cb_data = none }) o
          → t.cb_data ≡ none
      go none e = cc
      go (some u) e = cc (ap (Option.map (λ (x : Sender). x.cb_data)) e)

  closed-other :
      (i j : ℕ) (s : Sender) (w : World S)
      → i ≢ j
      → get_elem? (closed i s w).senders j ≡ get_elem? w.senders j
  closed-other i j s w apart =
      get_elem?-modify i j (λ (u : Sender). record u { cb_data = none }) w.senders
      ∙ rw (==-ne i j apart) refl

  -- A sender whose callback data is elsewhere is another one.
  own_address :
      (i j : ℕ) (s t : Sender) (p : ℕ) (w : World S)
      → get_elem? w.senders i ≡ some s
      → get_elem? w.senders j ≡ some t
      → t.cb_data ≡ some p
      → (address s.cb_data == p) ≡ false
      → i ≢ j
  own_address i j s t p w at_i at_j has differs same =
      let one : t ≡ s = cc (ap (get_elem? w.senders) same) in
      let here : address s.cb_data ≡ p =
        ap address (sym (ap (λ (x : Sender). x.cb_data) one) ∙ has) in
      cc ((==_iff (address s.cb_data) p).1 here)

  closed-IsValid :
      (i : ℕ) (s : Sender) (w : World S)
      → IsValid w
      → get_elem? w.senders i ≡ some s
      → IsValid (closed i s w)
  closed-IsValid i s w v e = record {
    owned = λ p j found. elim (Bool-cases (address s.cb_data == p)) [
      | inl same ↦ cc (lookup-delete (address s.cb_data) p w.registry)
      | inr differs ↦
          (let was =
              sym (lookup-delete (address s.cb_data) p w.registry ∙ rw differs refl) ∙ found in
            let (t, at_j, has) = v.owned p j was in
            (t, closed-other i j s w (own_address i j s t p w e at_j has differs) ∙ at_j, has))
    ];
    registered = λ j t p at_j has. elim (Bool-cases (i == j)) [
      | inl same ↦
          (let here : i ≡ j = (==_iff i j).0 same in
            cc (closed-none i s t w (ap (get_elem? (closed i s w).senders) here ∙ at_j)))
      | inr differs ↦
          (let apart : i ≢ j = λ eq. cc ((==_iff i j).1 eq) in
            let was = v.registered j t p (sym (closed-other i j s w apart) ∙ at_j) has in
            lookup-delete (address s.cb_data) p w.registry
            ∙ rw (==-ne (address s.cb_data) p (address_apart i j s p w v e apart was)) was)
    ];
    no_null = lookup-delete (address s.cb_data) 0 w.registry ∙ ground (arith, v.no_null);
  }

  -- Close keeps the registry true, also where the sender has been closed before.
  pub close_sender-IsValid : (i : ℕ) (w : World S) → IsValid w → IsValid (close_sender api i w)
  close_sender-IsValid i w v = go (get_elem? w.senders i) refl
    where
      go : (o : Option Sender) → get_elem? w.senders i ≡ o → IsValid (close_sender api i w)
      go none e = rw (close_sender-none i w e) v
      go (some s) e = rw (close_sender-some i s w e) (closed-IsValid i s w v e)

  -- Once a sender is closed, no callback finds it, whatever address it comes with.
  pub find_sender-close_sender :
      (i p : ℕ) (w : World S) → IsValid w → find_sender p (close_sender api i w) ≢ some i
  unfolding find_sender
  find_sender-close_sender i p w v = go (get_elem? w.senders i) refl
    where
      go :
          (o : Option Sender)
          → get_elem? w.senders i ≡ o
          → lookup p (close_sender api i w).registry ≢ some i
      go none e =
          rw (close_sender-none i w e) (λ found. (let (t, at_i, has) = v.owned p i found in cc))
      go (some s) e = rw (close_sender-some i s w e) (λ found.
          (let (t, at_i, has) = (closed-IsValid i s w v e).owned p i found in
            cc (closed-none i s t w at_i)))
