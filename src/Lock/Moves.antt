-- ===== src/Lock/Moves.antt =====
-- Each call and step of a thread keeps the invariant of the spin lock of src/core/qp_ipc_core.c.
use qphi.Common.{
  ℕ, suc, ◌^◌, ◌<◌, ◌≤◌, ◌≡◌, ◌≢◌, ◌⊎◌, inl, inr, refl, sym, ap, subst, ◌∙◌, true, false, arith,
  Bool-cases, ℕ_discrete,
}
use qphi.Memory.Chain.{update, update_self, update_ne}
use qphi.Lock.{Lock, Thread, World, Event, call, run, advance, happen, begin_call}
use qphi.Lock.Invariant.{Local, Keeps, Leaves, advance-Keeps, advance-Leaves, begin_call-Local}

-- The threads `me` and the processes `pid`; `n` events have happened.
pub record IsFair (me pid : ℕ → ℕ) (n : ℕ) (w : World) : Type 0 where
  pub known : (t : ℕ) → Local (me t) (pid t) w.held (w.threads t)
  pub only : (t u : ℕ) → (w.threads t).mine ≡ true → (w.threads u).mine ≡ true → t ≡ u
  pub taken : (t : ℕ) → (w.threads t).mine ≡ true → w.held.spin ≡ 1
  pub free : w.held.spin ≡ 0 → w.held.hold_counter ≡ 0
  pub owner : (t : ℕ) → w.held.hold_thread ≡ me t → (w.threads t).mine ≡ true
  pub counter : w.held.hold_counter ≤ n

pub clash : true ≡ false → ⊥
clash p = ground arith

-- A thread without the lock knows nothing of it.
Local-outside :
    (me pid : ℕ) (l l' : Lock) (th : Thread)
    → th.mine ≡ false
    → Local me pid l th
    → Local me pid l' th
Local-outside me pid l l' th quiet h = ground arith

module _ (me pid : ℕ → ℕ) (distinct : (t u : ℕ) → me t ≡ me u → t ≡ u)
    (set : (t : ℕ) → me t ≢ 0) where
  -- The world after the thread `t` did something.
  module _ (w : World) (n : ℕ) (fair : IsFair me pid n w) (t : ℕ) (l' : Lock) (th' : Thread) where
    abbrev after : World
    after = record { held = l'; threads = update w.threads t th' }

    -- Who has not moved has not the lock, if the one who moved had it or took it.
    others_quiet : (u : ℕ) → u ≢ t → (w.threads t).mine ≡ true → (w.threads u).mine ≡ false
    others_quiet u ne mine = elim (Bool-cases (w.threads u).mine) [
      | inl m ↦ absurd (ne (fair.only u t m mine))
      | inr m ↦ m
    ]

    -- What holds of a thread after the move: of the one that moved, and of each other one.
    after-cases :
        (P : Thread → Type 0) (u : ℕ)
        → (u ≡ t → P th')
        → (u ≢ t → P (w.threads u))
        → P (update w.threads t th' u)
    after-cases P u moved rest = elim (ℕ_discrete u t) [
      | yes e ↦
          subst (λ v. P (update w.threads t th' v)) (sym e)
            (subst P (sym (update_self w.threads t th')) (moved e))
      | no ne ↦ subst P (sym (update_ne w.threads t u th' ne)) (rest ne)
    ]

    keeps-only :
        (w.threads t).mine ≡ true
        → (u : ℕ) → (update w.threads t th' u).mine ≡ true
        → (u ≡ t) × (th'.mine ≡ true)
    keeps-only mine u =
        after-cases (λ th. th.mine ≡ true → (u ≡ t) × (th'.mine ≡ true)) u (λ e m. (e, m))
          (λ ne m. absurd (ne (fair.only u t m mine)))

    Keeps-IsFair :
        (w.threads t).mine ≡ true → Keeps (me t) (pid t) w.held l' th' → IsFair me pid (suc n) after
    Keeps-IsFair mine k = record {
      known = λ u.
          after-cases (λ th. Local (me u) (pid u) l' th) u
            (λ e. subst (λ v. Local (me v) (pid v) l' th') (sym e) k.known)
            (λ ne.
              Local-outside (me u) (pid u) w.held l' (w.threads u) (others_quiet u ne mine)
                (fair.known u));
      only = λ u v mu mv. (keeps-only mine u mu).0 ∙ sym (keeps-only mine v mv).0;
      taken = λ u mu. let m = (keeps-only mine u mu).1 in ground arith;
      free = λ z. ground arith;
      owner = λ u e.
          let is_t : u ≡ t = elim k.thread [
            | inl same ↦ fair.only u t (fair.owner u (sym same ∙ e)) mine
            | inr (inl m) ↦ distinct u t (sym e ∙ m)
            | inr (inr z) ↦ absurd (set u (sym e ∙ z))
          ] in
          let still : th'.mine ≡ true = elim k.spin [
            | inl m ↦ m.0
            | inr (_, _, _, z) ↦ absurd (set u (sym e ∙ z))
          ] in
          after-cases (λ th. th.mine ≡ true) u (λ e. still) (λ ne. absurd (ne is_t));
      counter = omega (arith, k.counter, fair.counter);
    }

    -- While the lock is free nobody has it.
    all_quiet : w.held.spin ≡ 0 → (u : ℕ) → (w.threads u).mine ≡ false
    all_quiet open_lock u = elim (Bool-cases (w.threads u).mine) [
      | inl m ↦ absurd (let p = fair.taken u m in the_bits p open_lock)
      | inr m ↦ m
    ]
      where
        the_bits : w.held.spin ≡ 1 → w.held.spin ≡ 0 → ⊥
        the_bits p q = ground arith

    -- A move that leaves the lock as it was.
    idle-IsFair :
        (w.threads t).mine ≡ false
        → Local (me t) (pid t) l' th'
        → th'.mine ≡ false
        → l' ≡ w.held
        → IsFair me pid (suc n) after
    idle-IsFair quiet k quiet' same = record {
      known = λ u.
          after-cases (λ th. Local (me u) (pid u) l' th) u
            (λ e. subst (λ v. Local (me v) (pid v) l' th') (sym e) k)
            (λ ne. subst (λ l. Local (me u) (pid u) l (w.threads u)) (sym same) (fair.known u));
      only = λ u v mu mv. fair.only u v (was u mu) (was v mv);
      taken = λ u mu. ap (λ l. l.spin) same ∙ fair.taken u (was u mu);
      free = λ z. ap (λ l. l.hold_counter) same ∙ fair.free (sym (ap (λ l. l.spin) same) ∙ z);
      owner = λ u e.
          let m : (w.threads u).mine ≡ true =
            fair.owner u (sym (ap (λ l. l.hold_thread) same) ∙ e) in
          after-cases (λ th. th.mine ≡ true) u
            (λ e. absurd (clash (sym m ∙ ap (λ v. (w.threads v).mine) e ∙ quiet))) (λ ne. m);
      counter = let c = ap (λ l. l.hold_counter) same in omega (arith, c, fair.counter);
    }
      where
        was : (u : ℕ) → (update w.threads t th' u).mine ≡ true → (w.threads u).mine ≡ true
        was u =
            after-cases (λ th. th.mine ≡ true → (w.threads u).mine ≡ true) u
              (λ e m. absurd (clash (sym m ∙ quiet'))) (λ ne m. m)

    -- The move that takes the lock.
    takes-IsFair :
        Leaves (me t) (pid t) w.held l' th'
        → th'.mine ≡ true
        → w.held.spin ≡ 0
        → l'.spin ≡ 1
        → IsFair me pid (suc n) after
    takes-IsFair k mine open_lock shut = record {
      known = λ u.
          after-cases (λ th. Local (me u) (pid u) l' th) u
            (λ e. subst (λ v. Local (me v) (pid v) l' th') (sym e) k.known)
            (λ ne.
              Local-outside (me u) (pid u) w.held l' (w.threads u) (all_quiet open_lock u)
                (fair.known u));
      only = λ u v mu mv. is_t u mu ∙ sym (is_t v mv);
      taken = λ u mu. shut;
      free = λ z. ground arith;
      owner = λ u e. absurd (clash (sym (fair.owner u (sym k.thread ∙ e)) ∙ all_quiet open_lock u));
      counter = omega (arith, k.counter, fair.counter);
    }
      where
        is_t : (u : ℕ) → (update w.threads t th' u).mine ≡ true → u ≡ t
        is_t u =
            after-cases (λ th. th.mine ≡ true → u ≡ t) u (λ e m. e)
              (λ ne m. absurd (clash (sym m ∙ all_quiet open_lock u)))

  -- Each event keeps the invariant.
  pub happen-IsFair :
      (e : Event) (n : ℕ) (w : World)
      → suc n < 2 ^ 64
      → IsFair me pid n w
      → IsFair me pid (suc n) (happen me pid e w)
  unfolding happen
  happen-IsFair (call t c) n w small fair =
      let th = w.threads t in
      let (known, kept) = begin_call-Local (me t) (pid t) w.held c th.phase th (fair.known t) in
      elim (Bool-cases th.mine) [
        | inl mine ↦ Keeps-IsFair w n fair t w.held (begin_call c th.phase th) mine (record {
          known = known;
          counter = omega arith;
          thread = inl refl;
          spin = inl (kept ∙ mine, fair.taken t mine);
        })
        | inr quiet ↦
            idle-IsFair w n fair t w.held (begin_call c th.phase th) quiet known (kept ∙ quiet) refl
      ]
  happen-IsFair (run t) n w small fair =
      let th = w.threads t in
      let l' = (advance (me t) (pid t) th.phase w.held th).0 in
      let th' = (advance (me t) (pid t) th.phase w.held th).1 in
      elim (Bool-cases th.mine) [
        | inl mine ↦ Keeps-IsFair w n fair t l' th' mine (
            advance-Keeps (me t) (pid t) w.held th (fair.taken t mine) (omega (arith, fair.counter))
              mine (fair.known t))
        | inr quiet ↦
            let free : (w.held.hold_counter ≡ 0) ⊎ (w.held.spin ≢ 0) =
              elim (ℕ_discrete w.held.spin 0) [ yes z ↦ inl (fair.free z) | no ne ↦ inr ne ] in
            let k : Leaves (me t) (pid t) w.held l' th' =
              advance-Leaves (me t) (pid t) w.held th (λ e. clash (sym (fair.owner t e) ∙ quiet))
                free quiet (fair.known t) in
            elim k.spin [
              | inl (mine, open_lock, shut) ↦ takes-IsFair w n fair t l' th' k mine open_lock shut
              | inr (quiet', same) ↦ idle-IsFair w n fair t l' th' quiet k.known quiet' same
            ]
      ]
