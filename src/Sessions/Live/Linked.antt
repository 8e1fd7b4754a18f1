-- ===== src/Sessions/Live/Linked.antt =====
-- Sessions and heroes that point at one another, and what one change keeps of it.
use dream_heroes.Base.{
  ==_iff, Bool-cases, Option, ap, arith, has, inl, inr, none, some, subst, sym, true, ℕ, ◌<◌, ◌==◌,
  ◌∙◌, ◌≡◌, ◌≢◌, ◌⊎◌,
}
use dream_heroes.Base.Map.{
  Map, assign, erase, find, find-assign_ne, find-assign_self, find-erase_ne, find-erase_self,
  nat_key,
}
use dream_heroes.Sessions.Live.{GameWorld, LiveHero, Session, put_game_session}
use mathlib.Core.Option.{none-ne-some, some-injective}

-- A session's hero is live, has that session, and is of its account; an account has one session; the heroes of the map are live and stand
-- under their accounts; a hero that the timer will destroy has no session; and numbers of new objects are new.
pub record Linked (w : GameWorld) : Type 0 where
  pub seated :
      (t h : ℕ) (x : Session)
      → find t w.onlines ≡ some x
      → x.dream_hero ≡ some h
      → (v : LiveHero) × (find h w.objects ≡ some v)
        × (v.session ≡ some t)
        × (v.account ≡ x.account)
  pub single :
      (t t1 : ℕ) (x x1 : Session)
      → find t w.onlines ≡ some x
      → find t1 w.onlines ≡ some x1
      → x1.account ≡ x.account
      → t1 ≡ t
  pub kept :
      (a h : ℕ)
      → find a w.heroes ≡ some h
      → (v : LiveHero) × (find h w.objects ≡ some v) × (v.account ≡ a)
  pub asleep :
      (h : ℕ) (v : LiveHero) → find h w.objects ≡ some v → v.destroy_event ≡ true → v.session ≡ none
  pub fresh : (h : ℕ) (v : LiveHero) → find h w.objects ≡ some v → h < w.next_object

-- There is a result, and it is so linked.
abbrev pub IsLinked : Option GameWorld → Type 0
IsLinked none = ⊥
IsLinked (some w) = Linked w

module _ {V : Type 0} where
  pub find-assign_cases :
      (k j : ℕ) (v u : V) (m : Map ℕ V)
      → find j (assign k v m) ≡ some u
      → ((j ≡ k) × (v ≡ u)) ⊎ ((j ≢ k) × (find j m ≡ some u))
  find-assign_cases k j v u m e = elim (Bool-cases (j == k)) [
    | inl hit ↦
        let same = (==_iff j k).0 hit in
        inl (
          same,
          some-injective v u
              (sym (ap (λ i. find i (assign k v m)) same ∙ find-assign_self k v m) ∙ e),
        )
    | inr missed ↦
        let other : j ≢ k = ground (arith, ==_iff j k, missed) in
        inr (other, sym (find-assign_ne k j v m other) ∙ e)
  ]

  pub find-erase_cases :
      (k j : ℕ) (u : V) (m : Map ℕ V) → find j (erase k m) ≡ some u → (j ≢ k) × (find j m ≡ some u)
  find-erase_cases k j u m e = elim (Bool-cases (j == k)) [
    | inl hit ↦
        let same = (==_iff j k).0 hit in
        absurd (none-ne-some u (sym (ap (λ i. find i (erase k m)) same ∙ find-erase_self k m) ∙ e))
    | inr missed ↦
        let other : j ≢ k = ground (arith, ==_iff j k, missed) in
        (other, sym (find-erase_ne k j m other) ∙ e)
  ]

-- A session without a hero, or with one that has it.
pub put_game_session-Linked :
    (t : ℕ) (x : Session) (w : GameWorld)
    → ((h : ℕ)
        → x.dream_hero ≡ some h
        → (v : LiveHero) × (find h w.objects ≡ some v)
          × (v.session ≡ some t)
          × (v.account ≡ x.account))
    → ((t1 : ℕ) (x1 : Session) → find t1 w.onlines ≡ some x1 → x1.account ≡ x.account → t1 ≡ t)
    → Linked w
    → Linked (put_game_session t x w)
unfolding put_game_session
put_game_session-Linked t x w has alone l = record {
  seated = λ t1 h y e linked. elim (find-assign_cases t t1 x y w.onlines e) [
    | inl p ↦
        let (v, live, points, same) = has h (ap (λ (z : Session). z.dream_hero) p.1 ∙ linked) in
        (v, live, points ∙ ap some (sym p.0), same ∙ ap (λ (z : Session). z.account) p.1)
    | inr p ↦ l.seated t1 h y p.1 linked
  ];
  single = λ t1 t2 y z e e2 same. elim (find-assign_cases t t1 x y w.onlines e) [
    | inl p ↦ elim (find-assign_cases t t2 x z w.onlines e2) [
      | inl q ↦ q.0 ∙ sym p.0
      | inr q ↦ alone t2 z q.1 (same ∙ sym (ap (λ (u : Session). u.account) p.1)) ∙ sym p.0
    ]
    | inr p ↦ elim (find-assign_cases t t2 x z w.onlines e2) [
      | inl q ↦ q.0 ∙ sym (alone t1 y p.1 (sym same ∙ sym (ap (λ (u : Session). u.account) q.1)))
      | inr q ↦ l.single t1 t2 y z p.1 q.1 same
    ]
  ];
  kept = l.kept;
  asleep = l.asleep;
  fresh = l.fresh;
}

-- An object that suits the sessions and the account that point at it.
pub put_object-Linked :
    (h : ℕ) (v : LiveHero) (w : GameWorld)
    → ((t : ℕ) (x : Session)
        → find t w.onlines ≡ some x
        → x.dream_hero ≡ some h
        → (v.session ≡ some t) × (v.account ≡ x.account))
    → ((a : ℕ) → find a w.heroes ≡ some h → v.account ≡ a)
    → (v.destroy_event ≡ true → v.session ≡ none)
    → h < w.next_object
    → Linked w
    → Linked (record w { objects = assign h v w.objects })
put_object-Linked h v w sits owned sleeps old l = record {
  seated = λ t j x e linked. elim (Bool-cases (j == h)) [
    | inl hit ↦
        let same = (==_iff j h).0 hit in
        let sit = sits t x e (linked ∙ ap some same) in (v, at j same, sit.0, sit.1)
    | inr missed ↦
        let (u, live, points, same) = l.seated t j x e linked in
        (u, beside j u (ground (arith, ==_iff j h, missed)) live, points, same)
  ];
  single = l.single;
  kept = λ a j e. elim (Bool-cases (j == h)) [
    | inl hit ↦ let same = (==_iff j h).0 hit in (v, at j same, owned a (e ∙ ap some same))
    | inr missed ↦
        let (u, live, rest) = l.kept a j e in
        (u, beside j u (ground (arith, ==_iff j h, missed)) live, rest)
  ];
  asleep = λ j u e. elim (find-assign_cases h j v u w.objects e) [
    | inl p ↦ subst (λ (z : LiveHero). z.destroy_event ≡ true → z.session ≡ none) p.1 sleeps
    | inr p ↦ l.asleep j u p.1
  ];
  fresh = λ j u e. elim (find-assign_cases h j v u w.objects e) [
    | inl p ↦ subst (λ i. i < w.next_object) (sym p.0) old
    | inr p ↦ l.fresh j u p.1
  ];
}
  where
    at : (j : ℕ) → j ≡ h → find j (assign h v w.objects) ≡ some v
    at j same = ap (λ i. find i (assign h v w.objects)) same ∙ find-assign_self h v w.objects

    beside :
        (j : ℕ) (u : LiveHero)
        → j ≢ h
        → find j w.objects ≡ some u
        → find j (assign h v w.objects) ≡ some u
    beside j u other live = find-assign_ne h j v w.objects other ∙ live

-- A session that is gone.
pub erase_session-Linked :
    (t : ℕ) (w : GameWorld) → Linked w → Linked (record w { onlines = erase t w.onlines })
erase_session-Linked t w l = record {
  seated = λ t1 h x e linked. l.seated t1 h x (find-erase_cases t t1 x w.onlines e).1 linked;
  single = λ t1 t2 y z e e2.
      l.single t1 t2 y z (find-erase_cases t t1 y w.onlines e).1
        (find-erase_cases t t2 z w.onlines e2).1;
  kept = l.kept;
  asleep = l.asleep;
  fresh = l.fresh;
}
