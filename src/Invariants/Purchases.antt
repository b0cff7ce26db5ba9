-- ===== src/Invariants/Purchases.antt =====
-- What is bought stays: completed orders, issued tickets and their instances.
use ticketing_system.Prelude.{
  ℕ, ◌≡◌, refl, Bool, true, false, List, [], ◌∷◌, some, arith, ◌==◌, Bool-cases, inl, inr, subst,
  sym, ◌∙◌, ==_iff,
}
use ticketing_system.Table.{scalar, exists, delete}
use ticketing_system.Table.Replace.{scalar-replace_other}
use ticketing_system.Schema.{Database, Order, OrderStatus, Ticket, TicketInstance, is_status}
use ticketing_system.Booking.Orders.{save_order}

-- The ticket is one of the instance.
abbrev pub is_of : ℕ → Ticket → Bool
is_of instance_id k = k.ticket_instance_id == instance_id

abbrev pub is_completed : Order → Bool
is_completed o = is_status o.status OrderStatus.completed

-- Completed orders stay as they are, as do tickets, and the instances that have one.
pub record Purchases (db db' : Database) : Type 0 where
  pub orders :
      (o : Order)
      → is_completed o ≡ true
      → scalar (λ r. r.id == o.id) db.orders ≡ some o
      → scalar (λ r. r.id == o.id) db'.orders ≡ some o
  pub tickets :
      (k : Ticket)
      → scalar (λ r. r.id == k.id) db.tickets ≡ some k
      → scalar (λ r. r.id == k.id) db'.tickets ≡ some k
  pub issued : (i : ℕ) → exists (is_of i) db.tickets ≡ true → exists (is_of i) db'.tickets ≡ true
  pub instances :
      (t : TicketInstance)
      → exists (is_of t.id) db.tickets ≡ true
      → scalar (λ r. r.id == t.id) db.ticket_instances ≡ some t
      → scalar (λ r. r.id == t.id) db'.ticket_instances ≡ some t

pub Purchases-refl : (db : Database) → Purchases db db
Purchases-refl db = record {
  orders = λ o c h. h;
  tickets = λ k h. h;
  issued = λ i h. h;
  instances = λ t i h. h;
}

pub Purchases-trans : (a b c : Database) → Purchases a b → Purchases b c → Purchases a c
Purchases-trans a b c p q = record {
  orders = λ o done h. q.orders o done (p.orders o done h);
  tickets = λ k h. q.tickets k (p.tickets k h);
  issued = λ i h. q.issued i (p.issued i h);
  instances = λ t i h. q.instances t (p.issued t.id i) (p.instances t i h);
}

-- An order that is not completed may change.
pub save_order-Purchases :
    (db : Database) (o o' : Order)
    → scalar (λ r. r.id == o.id) db.orders ≡ some o
    → is_completed o ≡ false
    → o'.id ≡ o.id
    → Purchases db (save_order db o')
unfolding save_order
save_order-Purchases db o o' row not_done same = record {
  orders = λ c done h. elim (Bool-cases (o'.id == c.id)) [
    | inl hit ↦
        let at_c : o.id ≡ c.id = sym same ∙ (==_iff o'.id c.id).0 hit in
        let there = subst (λ j. scalar (λ r. r.id == j) db.orders ≡ some o) at_c row in
        let same_order : o ≡ c = cc in
        absurd (ground (arith, subst (λ d. is_completed d ≡ false) same_order not_done, done))
    | inr miss ↦ scalar-replace_other (λ r. r.id) o'.id c.id o' db.orders refl miss ∙ h
  ];
  tickets = λ k h. h;
  issued = λ i h. h;
  instances = λ t i h. h;
}

-- Rows that a query does not want may be deleted.
pub scalar-delete {ℓ} :
    {A : Type ℓ} (p q : A → Bool) (rs : List A) (r : A)
    → ((x : A) → p x ≡ true → x ≡ r → q x ≡ false)
    → scalar p rs ≡ some r
    → scalar p (delete q rs) ≡ some r
unfolding scalar delete
scalar-delete p q [] r h e = absurd (ground (arith, e))
scalar-delete p q (x ∷ rs) r h e = elim (Bool-cases (p x)) [
  | inl hit ↦
      let same : x ≡ r = ground (arith, e, hit) in
      rw (h x hit same, hit) (subst (λ y. some y ≡ some r) (sym same) refl)
  | inr miss ↦
      let rest = scalar-delete p q rs r h (ground (arith, e, miss)) in
      elim (Bool-cases (q x)) [ inl gone ↦ rw gone rest | inr stays ↦ rw (stays, miss) rest ]
]
