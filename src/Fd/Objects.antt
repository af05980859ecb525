-- ===== src/Fd/Objects.antt =====
-- A program's holders, and the statements that make, move, change and destroy them
-- (sex/util/fd_holder.cpp). Objects stand at addresses.
use sex.Common.{ℕ, Option, none, some, ◌==◌, if◌then◌else◌, List, [], ◌∷◌}
use sex.Common.Int.{ℤ, minus_one}
use sex.Runtime.{done, terminated, Method, Sys, ◌>>=◌, ◌>>◌, pure}
use sex.Fd.{
  FileDescriptor, FdHolder, holder, empty_holder, move_construct, move_assign, reset, release,
  destroy, swap,
}

abbrev pub Objects : Type 0
Objects = ℕ → Option FdHolder

abbrev pub update {ℓ} : {A : Type ℓ} → (ℕ → A) → ℕ → A → ℕ → A
update f i a j = if i == j then a else f j

-- A member call on the object at `i`. Where no object lives there the program has no meaning, and
-- the call is taken to end it.
abbrev pub on_object : {W A : Type 0} → ℕ → Method FdHolder W A → Method Objects W A
on_object i m (objs, w) = elim (objs i) [
  | none ↦ (terminated, (objs, w))
  | some h ↦ let (r, (h', w')) = m (h, w) in (r, (update objs i (some h'), w'))
]

-- A destructor's call: the object lives no more.
abbrev pub end_object :
    {W : Type 0} → ℕ → Method FdHolder W (Unit {0}) → Method Objects W (Unit {0})
end_object i m (objs, w) = elim (objs i) [
  | none ↦ (terminated, (objs, w))
  | some h ↦ let (r, (h', w')) = m (h, w) in (r, (update objs i none, w'))
]

abbrev pub two_objects :
    {W : Type 0} → ℕ → ℕ → (FdHolder → FdHolder → FdHolder × FdHolder) → Method Objects W (Unit {0})
two_objects i j f (objs, w) = elim (objs i) [
  | none ↦ (terminated, (objs, w))
  | some h ↦ elim (objs j) [
    | none ↦ (terminated, (objs, w))
    | some k ↦ let (h', k') = f h k in (done tt, (update (update objs i (some h')) j (some k'), w))
  ]
]

-- `swap` and the assignment may name one object twice, which then keeps its descriptor.
pub data Op : Type 0 where
  constructs : ℕ → ℤ → Op
  constructs_empty : ℕ → Op
  move_constructs move_assigns swaps : ℕ → ℕ → Op
  resets : ℕ → FileDescriptor → Op
  releases destroys : ℕ → Op

module _ {W : Type 0} (sys : Sys W) where
  unfoldable pub step : Op → Method Objects W (Unit {0})
  unfolding move_construct move_assign reset release destroy
  step (constructs i fd) (objs, w) = (done tt, (update objs i (some (holder fd)), w))
  step (constructs_empty i) (objs, w) = (done tt, (update objs i (some empty_holder), w))
  step (move_constructs i j) (objs, w) = elim (objs j) [
    | none ↦ (terminated, (objs, w))
    | some other ↦
        let (h, other') = move_construct other in
        (done tt, (update (update objs j (some other')) i (some h), w))
  ]
  step (move_assigns i j) s = two_objects i j move_assign s
  step (swaps i j) s = two_objects i j swap s
  step (resets i d) s = on_object i (reset sys d) s
  step (releases i) s = on_object i (release >>= λ _. pure tt) s
  step (destroys i) s = end_object i (destroy sys) s

  unfoldable pub run : List Op → Method Objects W (Unit {0})
  run [] = pure tt
  run (op ∷ ops) = step op >> run ops

abbrev pub number_in : Option FdHolder → ℤ
number_in none = minus_one
number_in (some h) = h.fd.number

-- The number that the object at an address holds, -1 for none.
abbrev pub held : Objects → ℕ → ℤ
held objs i = number_in (objs i)
