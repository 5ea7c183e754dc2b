-- ===== src/Live/Coherence.antt =====
-- What the fields of LiveManager in packages/core/src/live/manager.ts say of each other between any
-- two of its steps.
use flux_fast.Shared.{
  ℕ, String, str_eq_refl, ◌≡◌, refl, Bool, true, false, ◌&&◌, ◌||◌, not, Option, none, some, List,
  [], ◌∷◌, if◌then◌else◌, is_some, arith, bool_eq, Bool-cases, inl, inr,
}
use flux_fast.Live.State.{
  LiveConnectionStatus, connected, offline, status_eq, LiveStatusSnapshot, same_snapshot,
  LiveManifest, same_manifest, LiveManager, time_eq, same_keys,
}
use flux_fast.Live.Internals.{set_snapshot}

abbrev pub implies : Bool → Bool → Bool
implies p q = not p || q

-- The manager wants a connection and knows what to ask for.
abbrev pub wants : LiveManager → Bool
wants m = m.desired && is_some m.manifest

-- A connection and a timer are wanted, watch the network, and exclude each other; the snapshot says
-- `connected` in both of its fields or in neither, and only with a connection; and a manager that
-- wants a connection has one, waits for the timer, or waits for the network.
pub record IsCoherent (m : LiveManager) : Type 0 where
  pub connection : implies (is_some m.connection) (wants m && m.network_subscribed) ≡ true
  pub timer : implies (is_some m.reconnect_timer) (wants m && m.network_subscribed) ≡ true
  pub exclusive : (is_some m.connection && is_some m.reconnect_timer) ≡ false
  pub status : bool_eq m.snapshot.is_connected (status_eq m.snapshot.status connected) ≡ true
  pub connected : implies m.snapshot.is_connected (is_some m.connection) ≡ true
  pub progress :
      implies
        (wants m)
        (is_some m.connection || is_some m.reconnect_timer || status_eq m.snapshot.status offline)
      ≡ true
  pub watching : implies (wants m) m.network_subscribed ≡ true

-- A conditional is coherent where each branch is, under its own condition.
pub branch-IsCoherent :
    (b : Bool) (s t : LiveManager)
    → (b ≡ true → IsCoherent s)
    → (b ≡ false → IsCoherent t)
    → IsCoherent (if b then s else t)
branch-IsCoherent true s t p q = p refl
branch-IsCoherent false s t p q = q refl

pub status_eq→eq : (a b : LiveConnectionStatus) → status_eq a b ≡ true → a ≡ b
status_eq→eq a b e = ground arith

time_eq→eq : (a b : Option ℕ) → time_eq a b ≡ true → a ≡ b
time_eq→eq a b e = ground arith

pub same_snapshot→eq : (a b : LiveStatusSnapshot) → same_snapshot a b ≡ true → a ≡ b
unfolding same_snapshot
same_snapshot→eq a b e =
    ground (arith, status_eq→eq a.status b.status, time_eq→eq a.last_event_at b.last_event_at)

-- After `setSnapshot` the snapshot has the fields that were given; only the effects tell whether
-- that changed anything.
pub set_snapshot_lem :
    (next : LiveStatusSnapshot) (m : LiveManager)
    → set_snapshot next m ≡ record m { snapshot = next; effects = (set_snapshot next m).effects }
unfolding set_snapshot
set_snapshot_lem next m = elim (Bool-cases (same_snapshot next m.snapshot)) [
  | inr e ↦ rw e refl
  | inl e ↦ rw (e, ← same_snapshot→eq next m.snapshot e) refl
]

pub same_keys_refl : (xs : List String) → same_keys xs xs ≡ true
same_keys_refl [] = refl
same_keys_refl (x ∷ xs) = ground (arith, str_eq_refl x, same_keys_refl xs)

pub same_manifest_refl : (m : Option LiveManifest) → same_manifest m m ≡ true
unfolding same_manifest
same_manifest_refl none = refl
same_manifest_refl (some m) = ground (arith, str_eq_refl m.url, same_keys_refl m.keys)
