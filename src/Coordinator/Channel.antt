-- ===== src/Coordinator/Channel.antt =====
-- Subscribers and their channels of one update: `publishLocked`, `closeSubscriberLocked`.
-- internal/bb/awsbrowser/query.go. A send to a full channel blocks, and it would block with the
-- coordinator's lock held; a send to a closed channel and a second close panic.
use binbox_cli.Base.{
  ℕ, ◌≡◌, refl, Bool, true, false, Option, none, some, [], ◌∷◌, if◌then◌else◌, Map, lookup, insert,
  delete, All, if_pos, if_neg, ℕ_discrete, subst,
}

pub data Outcome {ℓ} (A : Type ℓ) : Type ℓ where
  done : A → Outcome A
  panicked : Outcome A
  blocked : Outcome A

infixl 5 ◌>>=◌
abbrev pub ◌>>=◌ {ℓ κ} : {A : Type ℓ} {B : Type κ} → Outcome A → (A → Outcome B) → Outcome B
o >>= next = elim o [ done a ↦ next a | panicked ↦ panicked | blocked ↦ blocked ]

-- The outcome is a value with a property.
pub data Ends {ℓ} {A : Type ℓ} (P : A → Type 0) : Outcome A → Type ℓ where
  ends : (a : A) → P a → Ends P (done a)

pub Ends-bind {ℓ κ} :
    {A : Type ℓ} {B : Type κ} {P : A → Type 0} {Q : B → Type 0} {o : Outcome A}
    (next : A → Outcome B)
    → Ends P o
    → ((a : A) → P a → Ends Q (next a))
    → Ends Q (o >>= next)
Ends-bind next (ends a h) k = k a h

pub Ends-done {ℓ} :
    {A : Type ℓ} {P : A → Type 0} {o : Outcome A} → Ends P o → (a : A) → o ≡ done a → P a
Ends-done {P} (ends b h) a e = (let same : b ≡ a = cc e in subst P same h)

module _ {ℓ} {A : Type ℓ} {P : A → Type 0} where
  pub Ends-both : {Q : A → Type 0} {o : Outcome A} → Ends P o → Ends Q o → Ends (λ a. P a × Q a) o
  Ends-both (ends a h) q = ends a (h, Ends-done q a refl)

  pub Ends-weaken : {Q : A → Type 0} {o : Outcome A} → ((a : A) → P a → Q a) → Ends P o → Ends Q o
  Ends-weaken f (ends a h) = ends a (f a h)

  pub Ends-if :
      (b : Bool) (x y : Outcome A)
      → (b ≡ true → Ends P x)
      → (b ≡ false → Ends P y)
      → Ends P (if b then x else y)
  Ends-if true x y h k = h refl
  Ends-if false x y h k = k refl

  pub Ends-test :
      (b : Bool) (x y : Outcome A)
      → (b ≡ true → Ends P x)
      → (b ≡ false → Ends P y)
      → Ends P (elim b [ true ↦ x | false ↦ y ])
  Ends-test true x y h k = h refl
  Ends-test false x y h k = k refl

  pub Ends-option {κ} :
      {B : Type κ} (o : Option B) (x : Outcome A) (f : B → Outcome A)
      → (o ≡ none → Ends P x)
      → ((b : B) → o ≡ some b → Ends P (f b))
      → Ends P (elim o [ none ↦ x | some b ↦ f b ])
  Ends-option none x f h k = h refl
  Ends-option (some b) x f h k = k b refl

-- A channel of capacity one.
pub record Channel (A : Type 0) : Type 0 where
  pub held : Option A
  pub closed : Bool

module _ {A : Type 0} where
  abbrev pub new_channel : Channel A
  new_channel = record { held = none; closed = false }

  unfoldable pub send : A → Channel A → Outcome (Channel A)
  send a channel =
      if channel.closed
      then panicked
      else elim channel.held [ some _ ↦ blocked | none ↦ done (record channel { held = some a }) ]

  -- A receive that does not wait, whose value is dropped.
  unfoldable pub drain : Channel A → Channel A
  drain channel = record channel { held = none }

  unfoldable pub close : Channel A → Outcome (Channel A)
  close channel = if channel.closed then panicked else done (record channel { closed = true })

-- `querySubscriber`
pub record Subscriber (A : Type 0) : Type 0 where
  pub updates : Channel A
  pub closed : Bool

module _ {A : Type 0} where
  abbrev pub new_subscriber : Subscriber A
  new_subscriber = record { updates = new_channel; closed = false }

  -- One turn of the loop of `publishLocked`.
  unfoldable pub deliver : A → Subscriber A → Outcome (Subscriber A)
  deliver update subscriber =
      if subscriber.closed
      then done subscriber
      else (send update (drain subscriber.updates) >>= λ channel.
          done (record subscriber { updates = channel }))

  unfoldable pub publish : A → Map ℕ (Subscriber A) → Outcome (Map ℕ (Subscriber A))
  publish update [] = done []
  publish update ((id, subscriber) ∷ rest) = deliver update subscriber >>= λ subscriber.
      publish update rest >>= λ rest. done ((id, subscriber) ∷ rest)

  unfoldable pub close_subscriber : Subscriber A → Outcome (Subscriber A)
  close_subscriber subscriber =
      if subscriber.closed
      then done subscriber
      else (close subscriber.updates >>= λ channel.
          done (record { updates = channel; closed = true }))

  -- The loop that closes the subscribers of a flight.
  unfoldable pub close_all : Map ℕ (Subscriber A) → Outcome (Map ℕ (Subscriber A))
  close_all [] = done []
  close_all ((id, subscriber) ∷ rest) = close_subscriber subscriber >>= λ subscriber.
      close_all rest >>= λ rest. done ((id, subscriber) ∷ rest)

  pub record IsOpen (s : Subscriber A) : Type 0 where
    pub flag : s.closed ≡ false
    pub channel : s.updates.closed ≡ false

  abbrev pub AllOpen : Map ℕ (Subscriber A) → Type 0
  AllOpen = All (λ e. IsOpen e.1)

  -- Every subscriber holds this update, and is closed or not.
  unfoldable pub each_holding : Bool → A → Map ℕ (Subscriber A) → Map ℕ (Subscriber A)
  each_holding closed update [] = []
  each_holding closed update ((id, s) ∷ rest) =
      (id, record { updates = record { held = some update; closed = closed }; closed = closed })
      ∷ each_holding closed update rest

  unfoldable pub each_closed : Map ℕ (Subscriber A) → Map ℕ (Subscriber A)
  each_closed [] = []
  each_closed ((id, s) ∷ rest) =
      (id, record { updates = record s.updates { closed = true }; closed = true })
      ∷ each_closed rest

  deliver_open :
      (update : A) (s : Subscriber A)
      → IsOpen s
      → deliver update s
        ≡ done (record { updates = record { held = some update; closed = false }; closed = false })
  unfolding deliver send drain
  deliver_open update s o = rw (o.flag, deliver, o.channel) refl

  close_open :
      (s : Subscriber A)
      → IsOpen s
      → close_subscriber s
        ≡ done (record { updates = record s.updates { closed = true }; closed = true })
  unfolding close_subscriber close
  close_open s o = rw (o.flag, close_subscriber, o.channel) refl

  -- A publication to open subscribers neither blocks nor panics, and each of them holds the update.
  pub publish_open :
      (update : A) (m : Map ℕ (Subscriber A))
      → AllOpen m
      → publish update m ≡ done (each_holding false update m)
  unfolding publish each_holding
  publish_open update [] o = refl
  publish_open update ((id, s) ∷ m) o =
      rw (deliver_open update s o.0, publish_open update m o.1) refl

  pub close_all_open : (m : Map ℕ (Subscriber A)) → AllOpen m → close_all m ≡ done (each_closed m)
  unfolding close_all each_closed
  close_all_open [] o = refl
  close_all_open ((id, s) ∷ m) o = rw (close_open s o.0, close_all_open m o.1) refl

  pub each_holding-AllOpen :
      (update : A) (m : Map ℕ (Subscriber A)) → AllOpen (each_holding false update m)
  unfolding each_holding
  each_holding-AllOpen update [] = tt
  each_holding-AllOpen update (e ∷ m) =
      (record { flag = refl; channel = refl }, each_holding-AllOpen update m)

  pub insert-AllOpen :
      (id : ℕ) (s : Subscriber A) (m : Map ℕ (Subscriber A))
      → IsOpen s
      → AllOpen m
      → AllOpen (insert ℕ_discrete id s m)
  unfolding insert
  insert-AllOpen id s [] p o = (p, tt)
  insert-AllOpen id s ((j, t) ∷ m) p o = elim (ℕ_discrete j id) [
    | yes e ↦ rw (if_pos _ e) (p, o.1)
    | no e ↦ rw (if_neg _ e) (o.0, insert-AllOpen id s m p o.1)
  ]

  pub delete-AllOpen :
      (id : ℕ) (m : Map ℕ (Subscriber A)) → AllOpen m → AllOpen (delete ℕ_discrete id m)
  unfolding delete
  delete-AllOpen id [] o = tt
  delete-AllOpen id ((j, t) ∷ m) o = elim (ℕ_discrete j id) [
    | yes e ↦ rw (if_pos _ e) (delete-AllOpen id m o.1)
    | no e ↦ rw (if_neg _ e) (o.0, delete-AllOpen id m o.1)
  ]

  pub lookup-IsOpen :
      (id : ℕ) (s : Subscriber A) (m : Map ℕ (Subscriber A))
      → AllOpen m
      → lookup ℕ_discrete id m ≡ some s
      → IsOpen s
  unfolding lookup
  lookup-IsOpen id s [] o h = absurd cc
  lookup-IsOpen id s ((j, t) ∷ m) o h = elim (ℕ_discrete j id) [
    | yes e ↦ (let same : t ≡ s = cc (rw (if_pos _ e) at h) in rw (← same) o.0)
    | no e ↦ lookup-IsOpen id s m o.1 (rw (if_neg _ e) at h)
  ]

  pub close_found :
      (id : ℕ) (s : Subscriber A) (m : Map ℕ (Subscriber A))
      → AllOpen m
      → lookup ℕ_discrete id m ≡ some s
      → close_subscriber s
        ≡ done (record { updates = record s.updates { closed = true }; closed = true })
  close_found id s m o h = close_open s (lookup-IsOpen id s m o h)
