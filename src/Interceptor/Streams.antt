-- ===== src/Interceptor/Streams.antt =====
-- What GetTracker gives after each operation: streams do not interfere through their trackers.
use mathlib.Core.Option
use l4s_poc.Base.{
  ℕ, ◌<◌, ◌≡◌, ◌≢◌, refl, sym, ap, ◌∙◌, [], ◌∷◌, ◌++◌, false, Option, none, some, arith, ◌==◌,
  if◌then◌else◌, length, length-append, get_elem?, Bool-cases, inl, inr, ==_iff, ==-ne, ==-refl,
  leb,
}
use l4s_poc.Store.{
  lookup, lookup-delete, lookup-insert, get_elem?-modify, length-modify, get_elem?-append_left,
  get_elem?-append_end,
}
use l4s_poc.Ecn.{EcnTracker, new_tracker, track}
use l4s_poc.Interceptor.{
  Interceptor, Factory, new_interceptor, deref, BoundReader, bind_remote_stream,
  unbind_remote_stream, missing, other, value, Read, failed, packet, seq_num_of, timestamp_of,
  feedback, on_read, get_tracker,
}

-- Every pointer in the map is to a tracker, and no two SSRCs have the same.
pub record IsValid (i : Interceptor) : Type 0 where
  pub bounded : (k p : ℕ) → lookup k i.trackers ≡ some p → p < length i.heap
  pub injective : (j k p : ℕ) → lookup j i.trackers ≡ some p → lookup k i.trackers ≡ some p → j ≡ k

pub new_interceptor-IsValid : (f : Factory) → IsValid (new_interceptor f)
unfolding new_interceptor lookup
new_interceptor-IsValid f = record { bounded = λ k p e. cc; injective = λ j k p e d. cc }

pub bind_remote_stream-IsValid :
    (ssrc : ℕ) (i : Interceptor) → IsValid i → IsValid (bind_remote_stream ssrc i).1
unfolding bind_remote_stream
bind_remote_stream-IsValid ssrc i v = record {
  bounded = λ k p e. ground (
    arith,
    length-append i.heap (new_tracker ssrc ∷ []),
    lookup-insert ssrc k (length i.heap) i.trackers,
    v.bounded k p,
  );
  injective = λ j k p e d. ground (
    arith,
    lookup-insert ssrc j (length i.heap) i.trackers,
    lookup-insert ssrc k (length i.heap) i.trackers,
    v.bounded j p,
    v.bounded k p,
    v.injective j k p,
  );
}

pub unbind_remote_stream-IsValid :
    (ssrc : ℕ) (i : Interceptor) → IsValid i → IsValid (unbind_remote_stream ssrc i)
unfolding unbind_remote_stream
unbind_remote_stream-IsValid ssrc i v = record {
  bounded = λ k p e. ground (arith, lookup-delete ssrc k i.trackers, v.bounded k p);
  injective = λ j k p e d.
      ground (
        arith,
        lookup-delete ssrc j i.trackers,
        lookup-delete ssrc k i.trackers,
        v.injective j k p,
      );
}

-- Binding a stream gives it a new tracker, whether or not its SSRC had one, and leaves the trackers
-- of all other streams.
pub get_tracker-bind :
    (ssrc j : ℕ) (i : Interceptor)
    → IsValid i
    → get_tracker j (bind_remote_stream ssrc i).1
      ≡ (if ssrc == j then some (new_tracker ssrc) else get_tracker j i)
unfolding get_tracker bind_remote_stream
get_tracker-bind ssrc j i v =
    ap (deref (i.heap ++ (new_tracker ssrc ∷ []))) (lookup-insert ssrc j (length i.heap) i.trackers)
    ∙ elim (Bool-cases (ssrc == j)) [
      | inl same ↦ rw same (get_elem?-append_end i.heap (new_tracker ssrc))
      | inr differs ↦ rw differs (old (lookup j i.trackers) refl)
    ]
  where
    old :
        (o : Option ℕ)
        → lookup j i.trackers ≡ o
        → deref (i.heap ++ (new_tracker ssrc ∷ [])) o ≡ deref i.heap o
    old none e = refl
    old (some p) e = get_elem?-append_left i.heap (new_tracker ssrc ∷ []) p (v.bounded j p e)

-- Unbinding a stream removes its tracker and no other.
pub get_tracker-unbind :
    (ssrc j : ℕ) (i : Interceptor)
    → get_tracker j (unbind_remote_stream ssrc i) ≡ (if ssrc == j then none else get_tracker j i)
unfolding get_tracker unbind_remote_stream
get_tracker-unbind ssrc j i =
    ap (deref i.heap) (lookup-delete ssrc j i.trackers)
    ∙ elim (Bool-cases (ssrc == j)) [ inl same ↦ rw same | inr differs ↦ rw differs ]

-- What a packet that the reader `r` gives does to its tracker: nothing without a uint8 attribute or
-- a whole RTP header; else it is recorded and the callback is called if the attribute is exactly CE.
abbrev pub effect : BoundReader → Read → Interceptor → EcnTracker → EcnTracker
effect r failed i = λ t. t
effect r (packet buf missing) i = λ t. t
effect r (packet buf other) i = λ t. t
effect r (packet buf (value ecn)) i =
    if leb 12 (length buf)
    then (λ t. feedback i.on_feedback r.ssrc ecn (track ecn (seq_num_of buf) (timestamp_of buf) t))
    else (λ t. t)

map-id : (o : Option EcnTracker) → Option.map (λ t. t) o ≡ o
map-id none = refl
map-id (some t) = refl

on_read-heap :
    (r : BoundReader) (rd : Read) (i : Interceptor) (p : ℕ)
    → get_elem? (on_read r rd i).heap p ≡ (
        if r.tracker == p
        then Option.map (effect r rd i) (get_elem? i.heap p)
        else get_elem? i.heap p)
unfolding on_read
on_read-heap r failed i p = ground (arith, map-id (get_elem? i.heap p))
on_read-heap r (packet buf missing) i p = ground (arith, map-id (get_elem? i.heap p))
on_read-heap r (packet buf other) i p = ground (arith, map-id (get_elem? i.heap p))
on_read-heap r (packet buf (value ecn)) i p = elim (Bool-cases (leb 12 (length buf))) [
  | inl long ↦ rw long (get_elem?-modify r.tracker p _ i.heap)
  | inr short ↦ rw short (ground (arith, map-id (get_elem? i.heap p)))
]

on_read-length :
    (r : BoundReader) (rd : Read) (i : Interceptor) → length (on_read r rd i).heap ≡ length i.heap
unfolding on_read
on_read-length r failed i = refl
on_read-length r (packet buf missing) i = refl
on_read-length r (packet buf other) i = refl
on_read-length r (packet buf (value ecn)) i = elim (Bool-cases (leb 12 (length buf))) [
  | inl long ↦ simp long (length-modify r.tracker _ i.heap)
  | inr short ↦ simp short
]

on_read-trackers :
    (r : BoundReader) (rd : Read) (i : Interceptor) → (on_read r rd i).trackers ≡ i.trackers
unfolding on_read
on_read-trackers r failed i = refl
on_read-trackers r (packet buf missing) i = refl
on_read-trackers r (packet buf other) i = refl
on_read-trackers r (packet buf (value ecn)) i = ground arith

pub on_read-IsValid :
    (r : BoundReader) (rd : Read) (i : Interceptor) → IsValid i → IsValid (on_read r rd i)
on_read-IsValid r rd i v = record {
  bounded = λ k p e. omega (
    arith,
    on_read-length r rd i,
    v.bounded k p (ap (lookup k) (sym (on_read-trackers r rd i)) ∙ e),
  );
  injective = λ j k p e d.
      v.injective j k p (ap (lookup j) (sym (on_read-trackers r rd i)) ∙ e)
        (ap (lookup k) (sym (on_read-trackers r rd i)) ∙ d);
}

-- A packet on a bound stream changes the tracker of its own SSRC and no other.
pub get_tracker-on_read :
    (r : BoundReader) (rd : Read) (i : Interceptor) (j : ℕ)
    → IsValid i
    → lookup r.ssrc i.trackers ≡ some r.tracker
    → get_tracker j (on_read r rd i)
      ≡ (if r.ssrc == j then Option.map (effect r rd i) (get_tracker j i) else get_tracker j i)
unfolding get_tracker
get_tracker-on_read r rd i j v live =
    ap (deref (on_read r rd i).heap) (ap (lookup j) (on_read-trackers r rd i))
    ∙ elim (Bool-cases (r.ssrc == j)) [
      | inl same ↦ rw same (own ((==_iff r.ssrc j).0 same))
      | inr differs ↦ rw differs (others (lookup j i.trackers) refl differs)
    ]
  where
    own :
        r.ssrc ≡ j
        → deref (on_read r rd i).heap (lookup j i.trackers)
          ≡ Option.map (effect r rd i) (deref i.heap (lookup j i.trackers))
    own q =
        let here = ap (λ k. lookup k i.trackers) (sym q) ∙ live in
        ap (deref (on_read r rd i).heap) here
        ∙ on_read-heap r rd i r.tracker
        ∙ rw (==-refl r.tracker, here)

    apart : {p : ℕ} → lookup j i.trackers ≡ some p → (r.ssrc == j) ≡ false → r.tracker ≢ p
    apart {p} e differs q =
        cc ((==_iff r.ssrc j).1 (v.injective r.ssrc j p (live ∙ ap some q) e), differs)

    others :
        (o : Option ℕ)
        → lookup j i.trackers ≡ o
        → (r.ssrc == j) ≡ false
        → deref (on_read r rd i).heap o ≡ deref i.heap o
    others none e differs = refl
    others (some p) e differs = on_read-heap r rd i p ∙ rw (==-ne r.tracker p (apart e differs))

-- A reader whose tracker the map has dropped, since its stream was unbound or bound anew, records
-- into that tracker still, and no tracker that GetTracker gives changes.
pub get_tracker-on_read_stale :
    (r : BoundReader) (rd : Read) (i : Interceptor) (j : ℕ)
    → ((k : ℕ) → lookup k i.trackers ≢ some r.tracker)
    → get_tracker j (on_read r rd i) ≡ get_tracker j i
unfolding get_tracker
get_tracker-on_read_stale r rd i j stale =
    ap (deref (on_read r rd i).heap) (ap (lookup j) (on_read-trackers r rd i))
    ∙ go (lookup j i.trackers) refl
  where
    go : (o : Option ℕ) → lookup j i.trackers ≡ o → deref (on_read r rd i).heap o ≡ deref i.heap o
    go none e = refl
    go (some p) e =
        on_read-heap r rd i p ∙ rw (==-ne r.tracker p (λ q. stale j (e ∙ ap some (sym q))))
