-- ===== src/Stellar/Merkle/Live.antt =====
-- The handles that a key leads to are those of the pools' sessions, and never one that was dropped
-- (packages/stellar/src/transact/merkle/tree-session.ts).
use mathlib.Core.Bool.{true≢false}
use privacy_layer_confidenti.Base.{
  ℕ, String, true, false, some, ◌==◌, ◌≡◌, ◌≢◌, ◌≤◌, ◌<◌, refl, sym, ap, ◌∙◌, ◌⊎◌, inl, inr,
  or_default, is_some, if◌then◌else◌, Bool-cases, Option-cases, eq_iff, arith,
}
use privacy_layer_confidenti.Js.Text.{same_code}
use privacy_layer_confidenti.Stellar.Merkle.Table.{
  get, set, delete, same_key, get-set-same, get-set-other, get-delete-same, get-delete-other,
}
use privacy_layer_confidenti.Stellar.Merkle.Sessions.{
  MerkleSessions, MerkleTreeSession, forget, remember_handle,
}

-- Every handle that a key leads to is that of a pool's session under this key; the handles are below
-- the bound, and no two pools have the same.
pub record IsSound (bound : ℕ) (sessions : MerkleSessions) : Type 0 where
  pub known :
      (key : String) (handle : ℕ)
      → get key sessions.handles_by_key ≡ some handle
      → (pool : String) × (get pool sessions.sessions_by_pool
          ≡ some (record { handle = handle; key = key }))
  pub bounded :
      (pool : String) (e : MerkleTreeSession)
      → get pool sessions.sessions_by_pool ≡ some e
      → e.handle < bound
  pub alone :
      (p q : String) (e f : MerkleTreeSession)
      → get p sessions.sessions_by_pool ≡ some e
      → get q sessions.sessions_by_pool ≡ some f
      → e.handle ≡ f.handle
      → p ≡ q

module _ (pool key : String) (handle bound : ℕ) (sessions : MerkleSessions)
    (sound : IsSound bound sessions) (fresh : bound ≤ handle) where
  abbrev after : MerkleSessions
  after = remember_handle pool key handle sessions

  abbrev entered : MerkleTreeSession
  entered = record { handle = handle; key = key }

  some-inj : {A : Type 0} (a b : A) → some a ≡ some b → a ≡ b
  some-inj a b h = ap (λ o. or_default o a) h

  here_or_there :
      (q : String) (e : MerkleTreeSession)
      → get q after.sessions_by_pool ≡ some e
      → ((pool ≡ q) × (entered ≡ e))
        ⊎ (((pool == q) ≡ false) × (get q sessions.sessions_by_pool ≡ some e))
  unfolding remember_handle
  here_or_there q e h = elim (Bool-cases (pool == q)) [
    | inl same ↦
        let at : pool ≡ q = (eq_iff pool q).0 same in
        let found : get pool after.sessions_by_pool ≡ some entered =
          get-set-same pool entered sessions.sessions_by_pool in
        inl (at, some-inj entered e (sym found ∙ ap (λ r. get r after.sessions_by_pool) at ∙ h))
    | inr other ↦
        inr (other, sym (get-set-other q pool entered sessions.sessions_by_pool other) ∙ h)
  ]

  -- A handle that a session already has is not the new one.
  not_entered :
      (q : String) (e f : MerkleTreeSession)
      → entered ≡ e
      → get q sessions.sessions_by_pool ≡ some f
      → ¬ (e.handle ≡ f.handle)
  not_entered q e f new old same =
      let below = sound.bounded q f old in
      let here : handle ≡ e.handle = ap (λ x. x.handle) new in ground arith

  remember-alone :
      (p q : String) (e f : MerkleTreeSession)
      → get p after.sessions_by_pool ≡ some e
      → get q after.sessions_by_pool ≡ some f
      → e.handle ≡ f.handle
      → p ≡ q
  remember-alone p q e f h k same = elim (here_or_there p e h) [
    | inl a ↦ elim (here_or_there q f k) [
      | inl b ↦ sym a.0 ∙ b.0
      | inr b ↦ absurd (not_entered q e f a.1 b.1 same)
    ]
    | inr a ↦ elim (here_or_there q f k) [
      | inl b ↦ absurd (not_entered p f e b.1 a.1 (sym same))
      | inr b ↦ sound.alone p q e f a.1 b.1 same
    ]
  ]

  remember-bounded :
      (after_bound : ℕ)
      → handle < after_bound
      → (q : String) (e : MerkleTreeSession) → get q after.sessions_by_pool ≡ some e
      → e.handle < after_bound
  remember-bounded after_bound below q e h = elim (here_or_there q e h) [
    | inl a ↦ let here : handle ≡ e.handle = ap (λ x. x.handle) a.1 in ground arith
    | inr a ↦ let old = sound.bounded q e a.1 in ground arith
  ]

  abbrev HasOtherPool : String → ℕ → Type 0
  HasOtherPool k h =
      (q : String) × ((pool == q) ≡ false)
      × (get q sessions.sessions_by_pool ≡ some (record { handle = h; key = k }))

  other_pool :
      (k : String) (h : ℕ)
      → get k sessions.handles_by_key ≡ some h
      → ((e : MerkleTreeSession)
          → get pool sessions.sessions_by_pool ≡ some e
          → (e.key == k) ≡ false)
      → HasOtherPool k h
  other_pool k h found not_here =
      let (q, at) = sound.known k h found in
      elim (Bool-cases (pool == q)) [
        | inr other ↦ (q, other, at)
        | inl same ↦
            let here = ap (λ r. get r sessions.sessions_by_pool) ((eq_iff pool q).0 same) ∙ at in
            let hidden = not_here (record { handle = h; key = k }) here in
            let shown = same_key k in absurd (true≢false (sym shown ∙ hidden))
      ]

  not_fresh :
      (e : MerkleTreeSession)
      → get pool sessions.sessions_by_pool ≡ some e
      → ¬ (same_code e.handle handle ≡ true)
  not_fresh e here same = let below = sound.bounded pool e here in ground arith

  still_known :
      (k : String) (h : ℕ) (e : MerkleTreeSession)
      → get pool sessions.sessions_by_pool ≡ some e
      → get k (delete e.key sessions.handles_by_key) ≡ some h
      → HasOtherPool k h
  still_known k h e here kept = elim (Bool-cases (e.key == k)) [
    | inl same ↦
        let gone =
          ap (λ r. get r (delete e.key sessions.handles_by_key)) ((eq_iff e.key k).0 same) ∙ kept in
        let none_left = get-delete-same e.key sessions.handles_by_key in
        absurd (true≢false (sym (ap is_some (sym none_left ∙ gone))))
    | inr other ↦
        other_pool k h (sym (get-delete-other k e.key sessions.handles_by_key other) ∙ kept)
          (λ f there. ap (λ x. x.key == k) (some-inj f e (sym there ∙ here)) ∙ other)
  ]

  -- What is left of the handles once the pool's old key is forgotten has a session of another pool.
  forgotten :
      (k : String) (h : ℕ)
      → get k (forget (get pool sessions.sessions_by_pool) handle sessions.handles_by_key) ≡ some h
      → HasOtherPool k h
  forgotten k h found = elim (Option-cases (get pool sessions.sessions_by_pool)) [
    | inl nothing ↦
        other_pool k h
          (sym (ap (λ o. get k (forget o handle sessions.handles_by_key)) nothing) ∙ found)
          (λ e here. absurd (true≢false (sym (ap is_some (sym nothing ∙ here)))))
    | inr (e, here) ↦
        let moved = sym (ap (λ o. get k (forget o handle sessions.handles_by_key)) here) ∙ found in
        elim (Bool-cases (same_code e.handle handle)) [
          | inl same ↦ absurd (not_fresh e here same)
          | inr differs ↦
              let kept =
                sym (
                  ap
                    (λ b.
                      get k (
                        if b
                        then sessions.handles_by_key
                        else delete e.key sessions.handles_by_key))
                    differs)
                ∙ moved in
              still_known k h e here kept
        ]
  ]

  remember-known :
      (k : String) (h : ℕ)
      → get k after.handles_by_key ≡ some h
      → (q : String) × (get q after.sessions_by_pool ≡ some (record { handle = h; key = k }))
  unfolding remember_handle
  remember-known k h found = elim (Bool-cases (key == k)) [
    | inl same ↦
        let at = (eq_iff key k).0 same in
        let left = forget (get pool sessions.sessions_by_pool) handle sessions.handles_by_key in
        let new = get-set-same key handle left in
        let equal : handle ≡ h =
          some-inj handle h (sym new ∙ ap (λ r. get r (set key handle left)) at ∙ found) in
        (
          pool,
          get-set-same pool entered sessions.sessions_by_pool
              ∙ ap (λ x. some (record { handle = x; key = key })) equal
              ∙ ap (λ x. some (record { handle = h; key = x })) at,
        )
    | inr other ↦
        let left = forget (get pool sessions.sessions_by_pool) handle sessions.handles_by_key in
        let (q, d, there) = forgotten k h (sym (get-set-other k key handle left other) ∙ found) in
        (q, get-set-other q pool entered sessions.sessions_by_pool d ∙ there)
  ]

  remember-forgets :
      (e : MerkleTreeSession) (k : String)
      → get pool sessions.sessions_by_pool ≡ some e
      → get k after.handles_by_key ≢ some e.handle
  remember-forgets e k here found =
      let (q, there) = remember-known k e.handle found in
      elim (here_or_there q (record { handle = e.handle; key = k }) there) [
        | inl a ↦ not_entered pool (record { handle = e.handle; key = k }) e a.1 here refl
        | inr a ↦
            let same = sound.alone q pool (record { handle = e.handle; key = k }) e a.1 here refl in
            true≢false (sym (same_key pool) ∙ ap (λ r. pool == r) (sym same) ∙ a.0)
      ]

  -- Remembering a handle that is new keeps the tables sound, and no key leads to the handle that the
  -- pool had before.
  pub remember_handle-IsSound :
      (after_bound : ℕ)
      → handle < after_bound
      → IsSound after_bound (remember_handle pool key handle sessions)
        × ((e : MerkleTreeSession) (k : String)
            → get pool sessions.sessions_by_pool ≡ some e
            → get k (remember_handle pool key handle sessions).handles_by_key ≢ some e.handle)
  remember_handle-IsSound after_bound below = (
    record {
      known = remember-known;
      bounded = remember-bounded after_bound below;
      alone = remember-alone;
    },
    remember-forgets,
  )

pub IsSound-mono :
    (m n : ℕ) (sessions : MerkleSessions) → m ≤ n → IsSound m sessions → IsSound n sessions
IsSound-mono m n sessions h sound = record {
  known = sound.known;
  bounded = λ pool e here. let below = sound.bounded pool e here in ground arith;
  alone = sound.alone;
}
