-- ===== src/Commands/Delivery.antt =====
-- Which commands Deliver hands out.
use retune.Base.{
  ==→eq, Bool, List, [], ap, arith, false, if◌then◌else◌, inl, inr, map, refl, subst, sym, true, ℕ,
  ◌&&◌, ◌==◌, ◌↔◌, ◌∙◌, ◌∷◌, ◌≡◌, ◌⊎◌,
}
use retune.Commands.Rows.{Command, Db, is_open}
use retune.Commands.Store.{
  before, expire, expire_commands, in_order, insert, lapsed, owed_to, pending_commands, select,
  update_where,
}
use retune.Commands.Service.{Order, deliver, order_of}

-- The order is in the list.
abbrev pub Listed : Order → List Order → Type 0
Listed o [] = ⊥
Listed o (p ∷ ps) = (p ≡ o) ⊎ Listed o ps

abbrev pub Stored : Command → List Command → Type 0
Stored c [] = ⊥
Stored c (d ∷ ds) = (d ≡ c) ⊎ Stored c ds

-- What the device is owed: an open command of its own, which has begun or has not reached its expiry.
pub record Owed (now device : ℕ) (o : Order) (cs : List Command) : Type 0 where
  pub row : Command
  pub stored : Stored row cs
  pub is_order : order_of row ≡ o
  pub for_device : row.device_id ≡ device
  pub row_open : is_open row.status ≡ true
  pub not_lapsed : lapsed now row ≡ false

Listed-Stored :
    (o : Order) (cs : List Command)
    → Listed o (map order_of cs)
    → (c : Command) × Stored c cs × (order_of c ≡ o)
Listed-Stored o [] h = absurd h
Listed-Stored o (c ∷ cs) h = elim h [
  | inl e ↦ (c, inl refl, e)
  | inr k ↦ let (d, s, e) = Listed-Stored o cs k in (d, inr s, e)
]

Stored-Listed :
    (c : Command) (cs : List Command) → Stored c cs → Listed (order_of c) (map order_of cs)
Stored-Listed c [] h = absurd h
Stored-Listed c (d ∷ cs) h = elim h [
  | inl e ↦ inl (ap order_of e)
  | inr k ↦ inr (Stored-Listed c cs k)
]

-- An insertion puts its row in front, or behind the first row.
insert_turn :
    (b : Bool) (c d e : Command) (ds later : List Command)
    → Stored c later ↔ ((d ≡ c) ⊎ Stored c ds)
    → Stored c (if b then d ∷ e ∷ ds else e ∷ later) ↔ ((d ≡ c) ⊎ ((e ≡ c) ⊎ Stored c ds))
insert_turn true c d e ds later ih = (λ h. h, λ h. h)
insert_turn false c d e ds later ih = (
  λ h. elim h [
    | inl k ↦ inr (inl k)
    | inr k ↦ elim (ih.0 k) [ inl x ↦ inl x | inr x ↦ inr (inr x) ]
  ],
  λ h. elim h [
    | inl k ↦ inr (ih.1 (inl k))
    | inr k ↦ elim k [ inl x ↦ inl x | inr x ↦ inr (ih.1 (inr x)) ]
  ],
)

Stored-insert_iff :
    (c d : Command) (ds : List Command) → Stored c (insert d ds) ↔ ((d ≡ c) ⊎ Stored c ds)
unfolding insert
Stored-insert_iff c d [] = (λ h. h, λ h. h)
Stored-insert_iff c d (e ∷ ds) =
    insert_turn (before d e) c d e ds (insert d ds) (Stored-insert_iff c d ds)

Stored-in_order_iff : (c : Command) (cs : List Command) → Stored c (in_order cs) ↔ Stored c cs
unfolding in_order
Stored-in_order_iff c [] = (λ h. h, λ h. h)
Stored-in_order_iff c (d ∷ cs) =
    let i = Stored-insert_iff c d (in_order cs) in
    let ih = Stored-in_order_iff c cs in
    (
      λ h. elim (i.0 h) [ inl e ↦ inl e | inr k ↦ inr (ih.0 k) ],
      λ h. i.1 (elim h [ inl e ↦ inl e | inr k ↦ inr (ih.1 k) ]),
    )

select_turn :
    (test : Command → Bool) (t : Bool) (c d : Command) (cs rest : List Command)
    → test d ≡ t
    → Stored c rest ↔ (Stored c cs × (test c ≡ true))
    → Stored c (if t then d ∷ rest else rest) ↔ (((d ≡ c) ⊎ Stored c cs) × (test c ≡ true))
select_turn test true c d cs rest e ih = (
  λ h. elim h [
    | inl k ↦ (inl k, subst (λ x. test x ≡ true) k e)
    | inr k ↦ (inr (ih.0 k).0, (ih.0 k).1)
  ],
  λ h. elim h.0 [ inl k ↦ inl k | inr k ↦ inr (ih.1 (k, h.1)) ],
)
select_turn test false c d cs rest e ih = (
  λ h. (inr (ih.0 h).0, (ih.0 h).1),
  λ h. elim h.0 [
    | inl k ↦ absurd (cc (subst (λ x. test x ≡ false) k e, h.1))
    | inr k ↦ ih.1 (k, h.1)
  ],
)

Stored-select_iff :
    (test : Command → Bool) (c : Command) (cs : List Command)
    → Stored c (select test cs) ↔ (Stored c cs × (test c ≡ true))
unfolding select
Stored-select_iff test c [] = (λ h. absurd h, λ h. absurd h.0)
Stored-select_iff test c (d ∷ cs) =
    select_turn test (test d) c d cs (select test cs) refl (Stored-select_iff test c cs)

-- An open row is what it was before the lapsed ones expired.
kept_open :
    (now : ℕ) (t : Bool) (d c : Command)
    → lapsed now d ≡ t
    → (if t then expire now d else d) ≡ c
    → is_open c.status ≡ true
    → (d ≡ c) × (lapsed now c ≡ false)
kept_open now true d c e h o = absurd (closed (subst (λ x. is_open x.status ≡ true) (sym h) o))
  where
    closed : false ≡ true → ⊥
    closed h = cc h
kept_open now false d c e h o = (h, subst (λ x. lapsed now x ≡ false) h e)

Stored-unexpired :
    (now : ℕ) (c : Command) (cs : List Command)
    → is_open c.status ≡ true
    → Stored c (update_where (lapsed now) (expire now) cs)
    → Stored c cs × (lapsed now c ≡ false)
unfolding update_where
Stored-unexpired now c [] o h = absurd h
Stored-unexpired now c (d ∷ cs) o h = elim h [
  | inl e ↦ let (same, l) = kept_open now (lapsed now d) d c refl e o in (inl same, l)
  | inr k ↦ let (s, l) = Stored-unexpired now c cs o k in (inr s, l)
]

if_false : (x y : Command) (b : Bool) → b ≡ false → (if b then x else y) ≡ y
if_false x y true h = absurd (cc h)
if_false x y false h = refl

unlapsed-Stored :
    (now : ℕ) (c : Command) (cs : List Command)
    → lapsed now c ≡ false
    → Stored c cs
    → Stored c (update_where (lapsed now) (expire now) cs)
unfolding update_where
unlapsed-Stored now c [] l h = absurd h
unlapsed-Stored now c (d ∷ cs) l h = elim h [
  | inl e ↦
      inl
        (if_false (expire now d) d (lapsed now d) (subst (λ x. lapsed now x ≡ false) (sym e) l) ∙ e)
  | inr k ↦ inr (unlapsed-Stored now c cs l k)
]

both_iff : (a b : Bool) → ((a && b) ≡ true) ↔ ((a ≡ true) × (b ≡ true))
both_iff true b = (λ h. (refl, h), λ h. h.1)
both_iff false b = (λ h. absurd (cc h), λ h. absurd (cc h.0))

number_eq_iff : (m n : ℕ) → ((m == n) ≡ true) ↔ (m ≡ n)
number_eq_iff m n = (==→eq m n, λ h. ground (arith, h))

-- Deliver hands out an order exactly if the device is owed it: it is one of the device's own commands
-- that has not ended, and that has begun or has not reached its expiry.
pub deliver-Owed_iff :
    (now device : ℕ) (db : Db) (o : Order)
    → Listed o (deliver now device db).0 ↔ Owed now device o db.commands
unfolding deliver pending_commands expire_commands owed_to
deliver-Owed_iff now device db o =
    let current = update_where (lapsed now) (expire now) db.commands in
    (
      λ h.
          let (c, s, e) = Listed-Stored o (in_order (select (owed_to device) current)) h in
          let (t, w) =
            (Stored-select_iff (owed_to device) c current).0 ((Stored-in_order_iff c _).0 s) in
          let (own, op) = (both_iff (c.device_id == device) (is_open c.status)).0 w in
          let (k, l) = Stored-unexpired now c db.commands op t in
          record {
            row = c;
            stored = k;
            is_order = e;
            for_device = (number_eq_iff c.device_id device).0 own;
            row_open = op;
            not_lapsed = l;
          },
      λ w.
          subst (λ x. Listed x (map order_of (in_order (select (owed_to device) current))))
            w.is_order
            (Stored-Listed w.row (in_order (select (owed_to device) current)) (
              (Stored-in_order_iff w.row (select (owed_to device) current)).1 (
                (Stored-select_iff (owed_to device) w.row current).1 (
                  unlapsed-Stored now w.row db.commands w.not_lapsed w.stored,
                  (both_iff (w.row.device_id == device) (is_open w.row.status)).1
                      ((number_eq_iff w.row.device_id device).1 w.for_device, w.row_open),
                )))),
    )
