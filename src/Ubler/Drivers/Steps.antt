-- ===== src/Ubler/Drivers/Steps.antt =====
-- Every section of a driver returns and keeps the invariant.
use cs61_psets.Common.{
  some-injective, ℕ, ◌≤◌, ◌<◌, ◌≡◌, refl, sym, ◌∙◌, ap, ◌⊎◌, inl, inr, arith, Bool, true, false,
  Option, none, some, if◌then◌else◌, put, put_same, put_other, min,
}
use mathlib.Core.Path.{subst}
use cs61_psets.Ubler.{App, Driver}
use cs61_psets.Ubler.Requests.{Positions, receive_request, from_start}
use cs61_psets.Ubler.Requests.Receive.{
  receive_request-Result, receive_request-position, Result, done_customer, done_meal,
}
use cs61_psets.Ubler.Drivers.{
  Point, receiving, received, locking, testing, picking, carrying, dropping, returned, System,
  driver_lock, driver_test, driver_pick, driver_drop, driver_section, Step, section, Reach, here,
  next,
}
use cs61_psets.Ubler.Drivers.Invariant.{Pair, Ready, Inv, Serves}
use cs61_psets.Ubler.Drivers.Sections.{Idle, Idle-Serves, look-Serves, lock-Serves, test-Serves}
use cs61_psets.Ubler.Drivers.Delivery.{pick-Serves, drop-Serves, rest-Serves}

module _ (n k : ℕ) (deliver : Bool) where
  -- the next section of the driver `i` returns, and does this
  abbrev pub Moves : System → ℕ → Bool → Type 0
  Moves s i coin =
      (a : App) × (pos : Positions) × (d : Driver) × (p : Point) × (driver_section n deliver coin
          s.app s.positions (s.drivers i) (s.points i)
        ≡ some (a, pos, d, p))
      × Serves n k i s.app s.points a p
      × (pos.meal_pos ≤ n)
      × (pos.customer_pos ≤ n)

  -- the point after `receive_request`
  arrived :
      (a : App) (is_customer : Bool) (r : Option ℕ) (f g : ℕ → Bool) (low low' : ℕ)
      → (if is_customer then Result f n low r else Result g n low' r)
      → Ready a n (elim r [ none ↦ returned | some q ↦ received is_customer q ])
        × Idle (elim r [ none ↦ returned | some q ↦ received is_customer q ])
  arrived a is_customer none f g low low' h = (tt, λ c. refl)
  arrived a true (some q) f g low low' h = (h.0, λ c. refl)
  arrived a false (some q) f g low low' h = (h.0, λ c. refl)

  pub section-Moves : (s : System) (i : ℕ) (coin : Bool) → i < k → Inv n k s → Moves s i coin
  unfolding driver_section
  section-Moves s i coin below v = go (s.points i) refl (v.ready i)
    where
      move :
          (old p : Point)
          → s.points i ≡ old
          → Idle old
          → Idle p
          → Ready s.app n p
          → Serves n k i s.app s.points s.app p
      move = Idle-Serves n k i s.app (s.drivers i) s.points below

      go : (old : Point) → s.points i ≡ old → Ready s.app n old → Moves s i coin
      go receiving e h =
          let ((is_customer, r), pos) = receive_request s.app n deliver coin s.positions in
          let low = min 1 (from_start n s.positions.customer_pos) in
          let low' = min 1 (from_start n s.positions.meal_pos) in
          let (ready, idle) =
            arrived s.app is_customer r (done_customer s.app) (done_meal s.app) low low' (
              receive_request-Result s.app n deliver coin s.positions v.customer_bound
                v.meal_bound) in
          let (customers, meals) =
            receive_request-position s.app n deliver coin s.positions v.customer_bound
              v.meal_bound in
          let p : Point = elim r [ none ↦ returned | some q ↦ received is_customer q ] in
          (
            s.app,
            pos,
            s.drivers i,
            p,
            rw e refl,
            move receiving p e (λ c. refl) idle ready,
            meals,
            customers,
          )
      go (received b r) e h =
          let (p, runs, serves) =
            look-Serves n k i s.app (s.drivers i) s.points below b r e h v.paired v.cooked in
          (
            s.app,
            s.positions,
            s.drivers i,
            p,
            rw (e, runs) refl,
            serves,
            v.meal_bound,
            v.customer_bound,
          )
      go (locking t) e pair =
          let (a, p) = driver_lock s.app t in
          (
            a,
            s.positions,
            s.drivers i,
            p,
            rw e refl,
            lock-Serves n k i s.app (s.drivers i) s.points below t e pair,
            v.meal_bound,
            v.customer_bound,
          )
      go (testing t) e pair =
          let (a, d, p) = driver_test s.app (s.drivers i) t in
          (
            a,
            s.positions,
            d,
            p,
            rw e refl,
            test-Serves n k i s.app (s.drivers i) s.points below t e pair,
            v.meal_bound,
            v.customer_bound,
          )
      go (picking t) e pair =
          let (a, d, p) = driver_pick s.app (s.drivers i) t in
          (
            a,
            s.positions,
            d,
            p,
            rw e refl,
            pick-Serves n k i s.app (s.drivers i) s.points below t e pair,
            v.meal_bound,
            v.customer_bound,
          )
      go (carrying t) e pair =
          let (a, d) = driver_drop s.app (s.drivers i) t in
          (
            a,
            s.positions,
            d,
            dropping t,
            rw e refl,
            drop-Serves n k i s.app (s.drivers i) s.points below t e pair,
            v.meal_bound,
            v.customer_bound,
          )
      go (dropping t) e pair =
          let (a, runs, serves) = rest-Serves n k i s.app (s.drivers i) s.points below t e pair in
          (
            a,
            s.positions,
            s.drivers i,
            receiving,
            rw (e, runs) refl,
            serves,
            v.meal_bound,
            v.customer_bound,
          )
      go returned e h = (
        s.app,
        s.positions,
        s.drivers i,
        returned,
        rw e refl,
        move returned returned e (λ c. refl) (λ c. refl) tt,
        v.meal_bound,
        v.customer_bound,
      )

  after : System → ℕ → App × Positions × Driver × Point → System
  after s i (a, pos, d, p) = record {
    app = a;
    positions = pos;
    drivers = put s.drivers i d;
    points = put s.points i p;
  }

  after-Inv :
      (s : System) (i : ℕ) (a : App) (pos : Positions) (d : Driver) (p : Point)
      → Inv n k s
      → Serves n k i s.app s.points a p
      → pos.meal_pos ≤ n
      → pos.customer_pos ≤ n
      → Inv n k (after s i (a, pos, d, p))
  unfolding after
  after-Inv s i a pos d p v (kept, ready, serves) meals customers = record {
    paired = record {
      to = λ m h.
          let (c, e, b, e') = v.paired.to m h in (c, kept.customer m ∙ e, b, kept.meal c ∙ e');
      back = λ c h.
          let (m, e, b, e') = v.paired.back c h in (m, kept.meal c ∙ e, b, kept.customer m ∙ e');
    };
    cooked = λ m h. let (r, e) = v.cooked m h in (r, kept.restaurant m ∙ e);
    meal_bound = meals;
    customer_bound = customers;
    ready = λ j. elim (eq_cases j i) [
      | inl e ↦ rw (e, put_same s.points i p) ready
      | inr ne ↦ rw (put_other s.points i j p ne) (other_ready (s.points j) (v.ready j))
    ];
    served = λ c m pair. serves c m (pair_back c m pair) (v.served c m (pair_back c m pair));
  }
    where
      eq_cases : (i j : ℕ) → (i ≡ j) ⊎ (i ≡ j → ⊥)
      eq_cases i j = ground arith

      pair_back : (c m : ℕ) → Pair a n c m → Pair s.app n c m
      pair_back c m (b, b', e, e') = (b, b', sym (kept.meal c) ∙ e, sym (kept.customer m) ∙ e')

      pair_on : (c m : ℕ) → Pair s.app n c m → Pair a n c m
      pair_on c m (b, b', e, e') = (b, b', kept.meal c ∙ e, kept.customer m ∙ e')

      other_ready : (q : Point) → Ready s.app n q → Ready a n q
      other_ready receiving h = tt
      other_ready (received b r) h = h
      other_ready (locking t) h = pair_on t.customer t.meal h
      other_ready (testing t) h = pair_on t.customer t.meal h
      other_ready (picking t) h = pair_on t.customer t.meal h
      other_ready (carrying t) h = pair_on t.customer t.meal h
      other_ready (dropping t) h = pair_on t.customer t.meal h
      other_ready returned h = tt

  Step-Inv : (s u : System) → Inv n k s → Step n k deliver s u → Inv n k u
  unfolding after
  Step-Inv s u v (section i coin a pos d p below runs e) =
      let (a', pos', d', p', runs', serves, meals, customers) = section-Moves s i coin below v in
      let same : after s i (a', pos', d', p') ≡ u =
        ap (after s i) (some-injective _ _ (sym runs' ∙ runs)) ∙ sym e in
      subst (Inv n k) same (after-Inv s i a' pos' d' p' v serves meals customers)

  pub Reach-Inv : {s u : System} → Inv n k s → Reach n k deliver s u → Inv n k u
  Reach-Inv v here = v
  Reach-Inv v (next r step) = Step-Inv _ _ (Reach-Inv v r) step
