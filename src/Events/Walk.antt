-- ===== src/Events/Walk.antt =====
-- src/events/event_stream.cpp: the loops over the clients from the last one to the first, in which a
-- closed client's place is taken by the last.
use monero_solo_stratum.Common.{
  ℕ, zero, suc, ◌+◌, ◌-◌, ◌≤◌, ◌≡◌, refl, subst, inl, inr, Bool, true, false, ◌||◌, if◌then◌else◌,
  none, some, List, [], ◌∷◌, ltb, ◌==◌, arith, Bool-cases, Option-cases, length, get_elem?, set,
  back?, pop_back, All, All-pop_back, All-back?, length-set, length-pop_back,
}
use monero_solo_stratum.Events.{
  Client, Poll, close_client, deliver, deliver_all, push_frame, service, service_all,
  service_client,
}

back?-cons : (x : Client) (xs : List Client) → (l : Client) × (back? (x ∷ xs) ≡ some l)
back?-cons x [] = (x, refl)
back?-cons x (y ∷ ys) = back?-cons y ys

pop_back-cons-set :
    (x y l : Client) (ys : List Client) (i : ℕ)
    → pop_back (x ∷ set (y ∷ ys) i l) ≡ x ∷ pop_back (set (y ∷ ys) i l)
pop_back-cons-set x y l ys zero = refl
pop_back-cons-set x y l ys (suc i) = refl

close_client-suc :
    (i : ℕ) (x y : Client) (ys : List Client)
    → close_client (suc i) (x ∷ y ∷ ys) ≡ x ∷ close_client i (y ∷ ys)
unfolding close_client
close_client-suc i x y ys =
    let (l, e) = back?-cons y ys in
    elim (Bool-cases (i + 1 == length (y ∷ ys))) [
      | inl h ↦
          let h' : (suc i + 1 == length (x ∷ y ∷ ys)) ≡ true = ground arith in
          rw (e, h, h', close_client) refl
      | inr h ↦
          let h' : (suc i + 1 == length (x ∷ y ∷ ys)) ≡ false = ground arith in
          rw (e, h, h', close_client) (pop_back-cons-set x y l ys i)
    ]

-- The first clients have one property, the others another.
module _ (P Q : Client → Type 0) where
  abbrev pub Split : ℕ → List Client → Type 0
  Split zero cs = All Q cs
  Split (suc n) [] = Unit {0}
  Split (suc n) (c ∷ cs) = P c × Split n cs

  pub All-Split : (cs : List Client) → All P cs → Split (length cs) cs
  All-Split [] h = tt
  All-Split (c ∷ cs) h = (h.0, All-Split cs h.1)

  Split-set :
      (i : ℕ) (v : Client) (cs : List Client) → Q v → Split (suc i) cs → Split i (set cs i v)
  Split-set zero v [] q h = tt
  Split-set zero v (c ∷ cs) q h = (q, h.1)
  Split-set (suc i) v [] q h = tt
  Split-set (suc i) v (c ∷ cs) q h = (h.0, Split-set i v cs q h.1)

  Split-get_elem? :
      (i : ℕ) (v : Client) (cs : List Client) → get_elem? cs i ≡ some v → Split (suc i) cs → P v
  Split-get_elem? i v [] e h = cc
  Split-get_elem? zero v (c ∷ cs) e h = subst P (cc) h.0
  Split-get_elem? (suc i) v (c ∷ cs) e h = Split-get_elem? i v cs e h.1

  -- A place past the end.
  Split-none : (i : ℕ) (cs : List Client) → get_elem? cs i ≡ none → Split (suc i) cs → Split i cs
  Split-none zero [] e h = tt
  Split-none zero (c ∷ cs) e h = cc
  Split-none (suc i) [] e h = tt
  Split-none (suc i) (c ∷ cs) e h = (h.0, Split-none i cs e h.1)

  Split-close_first : (c : Client) (cs : List Client) → All Q cs → All Q (close_client 0 (c ∷ cs))
  unfolding close_client
  Split-close_first c [] h = tt
  Split-close_first c (d ∷ cs) h =
      let (l, e) = back?-cons d cs in
      let more : (0 + 1 == length (c ∷ d ∷ cs)) ≡ false = ground arith in
      rw (e, more, close_client) (All-pop_back Q (l ∷ d ∷ cs) (All-back? Q (d ∷ cs) l e h, h))

  Split-close_client :
      (i : ℕ) (v : Client) (cs : List Client)
      → get_elem? cs i ≡ some v
      → Split (suc i) cs
      → Split i (close_client i cs)
  Split-close_client i v [] e h = cc
  Split-close_client zero v (c ∷ cs) e h = Split-close_first c cs h.1
  Split-close_client (suc i) v (c ∷ []) e h = cc
  Split-close_client (suc i) v (c ∷ d ∷ cs) e h =
      rw (close_client-suc i c d cs) (h.0, Split-close_client i v (d ∷ cs) e h.1)

  deliver-Split :
      (limit : ℕ) (frame : List ℕ) (i : ℕ) (cs : List Client)
      → ((c : Client)
          → P c
          → (ltb limit (length frame) || ltb (limit - length frame) c.pending_bytes) ≡ false
          → Q (push_frame frame c))
      → Split (suc i) cs
      → Split i (deliver limit frame i cs)
  unfolding deliver
  deliver-Split limit frame i cs keeps h = elim (Option-cases (get_elem? cs i)) [
    | inl e ↦ rw (e, deliver) (Split-none i cs e h)
    | inr (c, e) ↦
        elim (Bool-cases (ltb limit (length frame) || ltb (limit - length frame) c.pending_bytes)) [
          | inl f ↦ rw (e, f, deliver) (Split-close_client i c cs e h)
          | inr f ↦ rw (e, f, deliver) (Split-set i _ cs (keeps c (Split-get_elem? i c cs e h) f) h)
        ]
  ]

  pub deliver_all-All :
      (limit : ℕ) (frame : List ℕ) (i : ℕ) (cs : List Client)
      → ((c : Client)
          → P c
          → (ltb limit (length frame) || ltb (limit - length frame) c.pending_bytes) ≡ false
          → Q (push_frame frame c))
      → Split i cs
      → All Q (deliver_all limit frame i cs)
  unfolding deliver_all
  deliver_all-All limit frame zero cs keeps h = h
  deliver_all-All limit frame (suc i) cs keeps h =
      deliver_all-All limit frame i (deliver limit frame i cs) keeps
        (deliver-Split limit frame i cs keeps h)

  service-Split :
      (poll : ℕ → Poll) (i : ℕ) (cs : List Client)
      → ((p : Poll) (c d : Client) → service_client p c ≡ some d → P c → Q d)
      → Split (suc i) cs
      → Split i (service poll i cs)
  unfolding service
  service-Split poll i cs keeps h = elim (Option-cases (get_elem? cs i)) [
    | inl e ↦ rw (e, service) (Split-none i cs e h)
    | inr (c, e) ↦ elim (Option-cases (service_client (poll c.descriptor.number) c)) [
      | inl f ↦ rw (e, f, service) (Split-close_client i c cs e h)
      | inr (d, f) ↦
          rw (e, f, service)
            (Split-set i d cs (keeps (poll c.descriptor.number) c d f (Split-get_elem? i c cs e h))
              h)
    ]
  ]

  pub service_all-All :
      (poll : ℕ → Poll) (i : ℕ) (cs : List Client)
      → ((p : Poll) (c d : Client) → service_client p c ≡ some d → P c → Q d)
      → Split i cs
      → All Q (service_all poll i cs)
  unfolding service_all
  service_all-All poll zero cs keeps h = h
  service_all-All poll (suc i) cs keeps h =
      service_all-All poll i (service poll i cs) keeps (service-Split poll i cs keeps h)

length-close_client : (i : ℕ) (cs : List Client) → length (close_client i cs) ≤ length cs
unfolding close_client
length-close_client i cs = elim (Option-cases (back? cs)) [
  | inl e ↦ rw (e, close_client) (omega arith)
  | inr (l, e) ↦ rw (e, close_client) (go (i + 1 == length cs) l)
]
  where
    go : (b : Bool) (l : Client) → length (pop_back (if b then cs else set cs i l)) ≤ length cs
    go true l = omega (arith, length-pop_back cs)
    go false l = omega (arith, length-set cs i l, length-pop_back (set cs i l))

length-deliver :
    (limit : ℕ) (frame : List ℕ) (i : ℕ) (cs : List Client)
    → length (deliver limit frame i cs) ≤ length cs
unfolding deliver
length-deliver limit frame i cs = elim (Option-cases (get_elem? cs i)) [
  | inl e ↦ rw (e, deliver) (omega arith)
  | inr (c, e) ↦
      rw (e, deliver)
        (go (ltb limit (length frame) || ltb (limit - length frame) c.pending_bytes)
          (push_frame frame c))
]
  where
    go : (b : Bool) (d : Client) → length (if b then close_client i cs else set cs i d) ≤ length cs
    go true d = length-close_client i cs
    go false d = omega (arith, length-set cs i d)

pub length-deliver_all :
    (limit : ℕ) (frame : List ℕ) (i : ℕ) (cs : List Client)
    → length (deliver_all limit frame i cs) ≤ length cs
unfolding deliver_all
length-deliver_all limit frame zero cs = omega arith
length-deliver_all limit frame (suc i) cs = omega (
  arith,
  length-deliver limit frame i cs,
  length-deliver_all limit frame i (deliver limit frame i cs),
)

length-service :
    (poll : ℕ → Poll) (i : ℕ) (cs : List Client) → length (service poll i cs) ≤ length cs
unfolding service
length-service poll i cs = elim (Option-cases (get_elem? cs i)) [
  | inl e ↦ rw (e, service) (omega arith)
  | inr (c, e) ↦ elim (Option-cases (service_client (poll c.descriptor.number) c)) [
    | inl f ↦ rw (e, f, service) (length-close_client i cs)
    | inr (d, f) ↦ rw (e, f, service) (omega (arith, length-set cs i d))
  ]
]

pub length-service_all :
    (poll : ℕ → Poll) (i : ℕ) (cs : List Client) → length (service_all poll i cs) ≤ length cs
unfolding service_all
length-service_all poll zero cs = omega arith
length-service_all poll (suc i) cs =
    omega (arith, length-service poll i cs, length-service_all poll i (service poll i cs))
