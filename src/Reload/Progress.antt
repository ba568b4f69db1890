-- ===== src/Reload/Progress.antt =====
-- The loops of a reload: a VIP that is kept comes with an error, and only the removals can panic.
use pathosd.Common.{
  ◌<◌, ap, length, ℕ, ◌≡◌, refl, Bool, true, false, Option, none, some, List, [], ◌∷◌, ◌++◌, ◌||◌,
  ◌==◌, is_empty, if◌then◌else◌, Option-cases, inl, inr, ◌⊎◌,
}
use pathosd.Common.Dict.{Dict, lookup, member}
use pathosd.Config.Vip.{VipConfig, Config}
use pathosd.Config.ChecksPolicy.{ExprLang}
use pathosd.Config.Diff.{VipChange}
use pathosd.Checks.Registry.{SchedulerRef, listed, remove_vip_schedulers}
use pathosd.Checks.Registry.Removal.{remove_vip-many}
use pathosd.Policy.Notifier.{Notifier}
use pathosd.Policy.State.{Env}
use pathosd.Policy.Commit.{CommitError, remove_vip}
use pathosd.Reload.State.{StagedVip, ReloadStatus, Host}
use pathosd.Reload.Apply.{
  Progress, note_error, remove_one, remove_vips, add_one, add_vips, change_now, change_staged,
  change_one, change_vips, set_level,
}

-- a VIP is kept only with an error, and the generation is that of the start
pub record Tracks {N P : Type 0} (g : ℕ) (p : Progress N P) : Type 0 where
  pub covered : (is_empty p.kept ≡ true) ⊎ (is_empty p.status.errors ≡ false)
  pub generation : p.daemon.generation ≡ g

-- what holds of a result, and of a panic
abbrev pub Ends : {A : Type 0} → Type 0 → (A → Type 0) → Option A → Type 0
Ends Panic P none = Panic
Ends Panic P (some a) = P a

pub Ends-bind :
    {A B : Type 0} (Panic Panic' : Type 0) (P : A → Type 0) (Q : B → Type 0) (o : Option A)
    (f : A → Option B)
    → Ends Panic P o
    → (Panic → Panic')
    → ((a : A) → P a → Ends Panic' Q (f a))
    → Ends Panic' Q (elim o as (λ _. Option B) [ none ↦ none | some a ↦ f a ])
Ends-bind Panic Panic' P Q none f h j k = j h
Ends-bind Panic Panic' P Q (some a) f h j k = k a h

pub Ends-weaken :
    {A : Type 0} (Panic Panic' : Type 0) (P : A → Type 0) (o : Option A)
    → (Panic → Panic')
    → Ends Panic P o
    → Ends Panic' P o
Ends-weaken Panic Panic' P none j h = j h
Ends-weaken Panic Panic' P (some a) j h = h

is_empty-snoc {ℓ} : {A : Type ℓ} (xs : List A) (x : A) → is_empty (xs ++ x ∷ []) ≡ false
is_empty-snoc [] x = refl
is_empty-snoc (y ∷ xs) x = refl

note_error-grows :
    (e : Option CommitError) (st : ReloadStatus)
    → is_empty st.errors ≡ false
    → is_empty (note_error e st).errors ≡ false
unfolding note_error
note_error-grows none st h = h
note_error-grows (some e) st h = is_empty-snoc st.errors _

module _ {N R P : Type 0} (lang : ExprLang P) (bgp : Notifier N R) (g : ℕ) where
  Tracks-either :
      (b : Bool) (p q : Progress N P) → Tracks g p → Tracks g q → Tracks g (if b then p else q)
  Tracks-either true p q s t = s
  Tracks-either false p q s t = t

  remove_one-Tracks :
      (p : Progress N P) (v : VipConfig)
      → Tracks g p
      → Ends (1 < length (listed p.daemon.reg v.name)) (Tracks g) (remove_one lang bgp p v)
  unfolding remove_one
  remove_one-Tracks p v t = elim (Option-cases (remove_vip_schedulers p.daemon.reg v.name)) [
    | inl panic ↦ rw (panic, remove_one) (remove_vip-many p.daemon.reg v.name panic)
    | inr (reg, done) ↦ elim (Option-cases (remove_vip lang bgp p.daemon.pol v.name).1) [
      | inl good ↦
          rw (done, remove_one)
            (rw (good, remove_one) (record { covered = t.covered; generation = t.generation }))
      | inr (x, bad) ↦
          rw (done, remove_one)
            (rw (bad, remove_one)
              (record {
                covered = inr (is_empty-snoc p.status.errors _);
                generation = t.generation;
              }))
    ]
  ]

  -- The removals reach a VIP under which more than one scheduler is listed by then.
  abbrev pub Stumbles : Progress N P → List VipConfig → Type 0
  Stumbles p vips =
      (done : List VipConfig) × (v : VipConfig) × (rest : List VipConfig) × (p' : Progress N P)
      × (vips ≡ done ++ v ∷ rest)
      × (remove_vips lang bgp p done ≡ some p')
      × (1 < length (listed p'.daemon.reg v.name))

  Stumbles-cons :
      (p p' : Progress N P) (v : VipConfig) (vips : List VipConfig)
      → remove_one lang bgp p v ≡ some p'
      → Stumbles p' vips
      → Stumbles p (v ∷ vips)
  unfolding remove_vips
  Stumbles-cons p p' v vips one (done, w, rest, q, split, before, many) =
      (v ∷ done, w, rest, q, ap (λ l. v ∷ l) split, rw (one, remove_vips) before, many)

  pub remove_vips-Tracks :
      (p : Progress N P) (vips : List VipConfig)
      → Tracks g p
      → Ends (Stumbles p vips) (Tracks g) (remove_vips lang bgp p vips)
  unfolding remove_vips
  remove_vips-Tracks p [] t = t
  remove_vips-Tracks p (v ∷ vips) t =
      go (remove_one lang bgp p v) refl (remove_one-Tracks p v t)
        (λ p' t'. remove_vips-Tracks p' vips t')
    where
      go :
          (o : Option (Progress N P))
          → remove_one lang bgp p v ≡ o
          → Ends (1 < length (listed p.daemon.reg v.name)) (Tracks g) o
          → ((p' : Progress N P)
              → Tracks g p'
              → Ends (Stumbles p' vips) (Tracks g) (remove_vips lang bgp p' vips))
          → Ends (Stumbles p (v ∷ vips)) (Tracks g) (elim o as (λ _. Option (Progress N P)) [
            | none ↦ none
            | some p' ↦ remove_vips lang bgp p' vips
          ])
      go none e many later = ([], v, vips, p, refl, refl, many)
      go (some p') e t' later =
          Ends-weaken (Stumbles p' vips) (Stumbles p (v ∷ vips)) (Tracks g)
            (remove_vips lang bgp p' vips) (Stumbles-cons p p' v vips e) (later p' t')

  add_one-Tracks :
      (env : Env) (p : Progress N P) (scheds : List SchedulerRef) (v : VipConfig)
      → Tracks g p
      → Tracks g (add_one lang bgp env p scheds v)
  unfolding add_one
  add_one-Tracks env p scheds v t =
      Tracks-either (member v.name p.kept) _ _
        (record { covered = t.covered; generation = t.generation })
        (record { covered = t.covered; generation = t.generation })

  pub add_vips-Tracks :
      (env : Env) (built : Dict (List SchedulerRef)) (vips : List VipConfig) (p : Progress N P)
      → Tracks g p
      → Tracks g (add_vips lang bgp env built p vips)
  unfolding add_vips
  add_vips-Tracks env built [] p t = t
  add_vips-Tracks env built (v ∷ vips) p t =
      add_vips-Tracks env built vips _ (add_one-Tracks env p _ v t)

  note_error-covered :
      (kept : Dict VipConfig) (e : Option CommitError) (st : ReloadStatus)
      → (is_empty kept ≡ true) ⊎ (is_empty st.errors ≡ false)
      → (is_empty kept ≡ true) ⊎ (is_empty (note_error e st).errors ≡ false)
  note_error-covered kept e st (inl none_kept) = inl none_kept
  note_error-covered kept e st (inr some_error) = inr (note_error-grows e st some_error)

  change_now-Tracks :
      (env : Env) (p : Progress N P) (ch : VipChange)
      → Tracks g p
      → Tracks g (change_now lang bgp env p ch)
  unfolding change_now
  change_now-Tracks env p ch t = record {
    covered = note_error-covered p.kept _ p.status t.covered;
    generation = t.generation;
  }

  change_staged-Tracks :
      (p : Progress N P) (st : StagedVip) (ch : VipChange)
      → Tracks g p
      → Tracks g (change_staged lang bgp p st ch)
  unfolding change_staged
  change_staged-Tracks p st ch t = record { covered = t.covered; generation = t.generation }

  change_one-Tracks :
      (env : Env) (staged : Dict StagedVip) (p : Progress N P) (ch : VipChange)
      → Tracks g p
      → Tracks g (change_one lang bgp env staged p ch)
  unfolding change_one
  change_one-Tracks env staged p ch t = elim (Option-cases (lookup ch.new.name staged)) [
    | inl plain ↦
        rw (plain, change_one)
          (change_now-Tracks env _ ch (record { covered = t.covered; generation = t.generation }))
    | inr (st, waits) ↦
        rw (waits, change_one)
          (change_staged-Tracks _ st ch (record { covered = t.covered; generation = t.generation }))
  ]

  pub change_vips-Tracks :
      (env : Env) (staged : Dict StagedVip) (changes : List VipChange) (p : Progress N P)
      → Tracks g p
      → Tracks g (change_vips lang bgp env staged p changes)
  unfolding change_vips
  change_vips-Tracks env staged [] p t = t
  change_vips-Tracks env staged (ch ∷ changes) p t =
      change_vips-Tracks env staged changes _ (change_one-Tracks env staged p ch t)

  pub set_level-Tracks :
      (host : Host) (cfg : Config) (p : Progress N P)
      → Tracks g p
      → Tracks g (set_level lang bgp host cfg p)
  unfolding set_level
  set_level-Tracks host cfg p t =
      Tracks-either (p.daemon.lock_log_level || cfg.logging.level == p.daemon.cur.logging.level) _ _
        t
        (Tracks-either (host.takes_level cfg.logging.level) _ _
          (record { covered = t.covered; generation = t.generation })
          (record { covered = inr (is_empty-snoc p.status.errors _); generation = t.generation }))
