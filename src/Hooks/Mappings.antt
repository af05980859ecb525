-- ===== src/Hooks/Mappings.antt =====
-- The default hooks map the user that the parent had before the clone.
use sex.Common.{ℕ, [], ◌∷◌, Bool, true, false, ◌≡◌, ◌≢◌, ◌⊎◌, inl, inr, arith, Bool-cases}
use sex.Common.Int.{ℤ, minus_one, ◌==ℤ◌, ==ℤ→eq, ==ℤ→ne}
use sex.Runtime.{done, Throws, num, str}
use sex.ExecuteArgs.{CloneArgs}
use sex.Hooks.{
  HookCalls, ExecuteHooksDefault, before_clone, after_clone_child, after_clone_parent, has_new_user,
  hooks_default,
}

module _ {W : Type 0} (k : HookCalls W) (args : CloneArgs) (h : ExecuteHooksDefault) where
  open k use {getuid, getgid, set_dumpable, write_file}

  -- The three writes in their order.
  abbrev pub uid_written : ℕ → W → Bool × W
  uid_written uid w = write_file "/proc/self/uid_map" (str "0 " ∷ num uid ∷ str " 1" ∷ []) w

  abbrev pub groups_denied : W → Bool × W
  groups_denied w = write_file "/proc/self/setgroups" (str "deny" ∷ []) w

  abbrev pub gid_written : ℕ → W → Bool × W
  gid_written gid w = write_file "/proc/self/gid_map" (str "0 " ∷ num gid ∷ str " 1" ∷ []) w

  -- When CLONE_NEWUSER is set and the child's hook returns, it has made the process dumpable and
  -- written uid_map, setgroups and gid_map in this order, each with success, and the ids that it
  -- mapped are those that getuid and getgid gave before the clone.
  pub mappings :
      (w w' : W)
      → has_new_user args ≡ true
      → (after_clone_child k args ((before_clone k args (h, w)).1.0, w')).0 ≡ done tt
      → let uid = (getuid w).0 in
        let gid = (getgid (getuid w).1).0 in
        let w₁ = (set_dumpable w').1 in
        let w₂ = (uid_written uid w₁).1 in
        let w₃ = (groups_denied w₂).1 in
        ((after_clone_child k args ((before_clone k args (h, w)).1.0, w')).1.1
          ≡ (gid_written gid w₃).1)
        × ((set_dumpable w').0.value ≢ minus_one)
        × ((uid_written uid w₁).0 ≡ true)
        × ((groups_denied w₂).0 ≡ true)
        × ((gid_written gid w₃).0 ≡ true)
  unfolding before_clone after_clone_child
  mappings w w' n d = ground arith

  -- Without CLONE_NEWUSER the default hooks change nothing.
  no_mappings :
      (w w' : W)
      → has_new_user args ≡ false
      → (before_clone k args (h, w) ≡ (done args, (h, w)))
        × (after_clone_child k args (h, w') ≡ (done tt, (h, w')))
  unfolding before_clone after_clone_child
  no_mappings w w' n = ground arith

  -- The hooks of the default class, for a clone into a new user namespace.
  pub default_before :
      (w : W)
      → has_new_user args ≡ true
      → (hooks_default k).before_clone args (h, w) ≡ (
        done args,
        (
          record { previous_uid = (getuid w).0; previous_gid = (getgid (getuid w).1).0 },
          (getgid (getuid w).1).1,
        ),
      )
  unfolding hooks_default before_clone
  default_before w n = ground arith

  -- The child's hook writes all three files, or one of its steps fails and it throws.
  pub default_child :
      (w : W)
      → has_new_user args ≡ true
      → let w₁ = (set_dumpable w).1 in
        let w₂ = (uid_written h.previous_uid w₁).1 in
        let w₃ = (groups_denied w₂).1 in
        let run = (hooks_default k).after_clone_child args (h, w) in
        ((run ≡ (done tt, (h, (gid_written h.previous_gid w₃).1)))
          × ((set_dumpable w).0.value ≢ minus_one)
          × ((uid_written h.previous_uid w₁).0 ≡ true)
          × ((groups_denied w₂).0 ≡ true)
          × ((gid_written h.previous_gid w₃).0 ≡ true))
        ⊎ (((set_dumpable w).0.value ≡ minus_one)
            ⊎ ((set_dumpable w).0.value ≢ minus_one)
              × (((uid_written h.previous_uid w₁).0 ≡ false)
                  ⊎ ((uid_written h.previous_uid w₁).0 ≡ true)
                    × (((groups_denied w₂).0 ≡ false)
                        ⊎ ((groups_denied w₂).0 ≡ true)
                          × ((gid_written h.previous_gid w₃).0 ≡ false))))
          × Throws run.0
  unfolding hooks_default after_clone_child
  default_child w n =
      let w₁ = (set_dumpable w).1 in
      let w₂ = (uid_written h.previous_uid w₁).1 in
      let w₃ = (groups_denied w₂).1 in
      elim (Bool-cases ((set_dumpable w).0.value ==ℤ minus_one)) [
        | inl d ↦ let d' = ==ℤ→eq _ _ d in inr (inl d', ground arith)
        | inr d ↦
            let d' = ==ℤ→ne _ _ d in
            elim (Bool-cases (uid_written h.previous_uid w₁).0) [
              | inr u ↦ inr (inr (d', inl u), ground arith)
              | inl u ↦ elim (Bool-cases (groups_denied w₂).0) [
                | inr g ↦ inr (inr (d', inr (u, inl g)), ground arith)
                | inl g ↦ elim (Bool-cases (gid_written h.previous_gid w₃).0) [
                  | inr i ↦ inr (inr (d', inr (u, inr (g, i))), ground arith)
                  | inl i ↦ inl (ground arith, d', u, g, i)
                ]
              ]
            ]
      ]

  -- BeforeClone of the default class returns the arguments as they were, and AfterCloneParent
  -- changes nothing.
  pub default_parent :
      (o : ExecuteHooksDefault × W) (pid : ℤ)
      → (((hooks_default k).before_clone args o).0 ≡ done args)
        × ((hooks_default k).after_clone_parent args pid o ≡ (done tt, o))
  unfolding hooks_default before_clone after_clone_parent
  default_parent o pid = ground arith
