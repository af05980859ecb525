-- ===== src/Container/Tests.antt =====
-- A file system with one directory, there or not: the world is whether it is.
use sex.Container.{remove_container, destroy_container, create_in}
use sex.Container.Lifetime.{OnPath, container_lifetime}
use sex.Common.Int.{ℤ}
use sex.Common.{inr}
use sex.Fd.Tests.{table_closing, two_open}
use sex.Flock.Tests.{table_locks, table_opening}
use sex.Container.Descriptors.{Apart, initialize_closes}
use sex.Common.{arith, ℕ, Bool, true, false, not, ◌≡◌, refl}
use sex.Common.Int.{pos}
use sex.Runtime.{done, Sys, Reply}
use sex.Flock.{LockCalls}
use sex.Once.{fresh_once}
use sex.Container.{Container, ContainerCalls, initialize, create_in}

abbrev fine : Reply
fine = record { value = pos 3; errno = 0 }

abbrev pub dir_sys : Sys Bool
dir_sys = record {
  format = λ f args. f;
  strerror = λ n. "";
  error_text = λ n. "";
  close = λ fd w. (fine, w);
}

abbrev pub dir_locks : LockCalls Bool
dir_locks = record {
  sys = dir_sys;
  open_rdonly = λ path w. (fine, w);
  flock = λ fd op w. (fine, w);
}

-- remove_all answers with the code given.
abbrev pub directory : ℕ → ContainerCalls Bool
directory code = record {
  locks = dir_locks;
  exists = λ path w. ((w, 0), w);
  create_directory = λ path w. ((not w, 0), true);
  remove_all = λ path w. ((1, code), false);
  chroot = λ path w. (fine, w);
  chdir = λ path w. (fine, w);
  tmp_sbox = "/tmp/sbox";
  parent_path = λ path. "/tmp";
  join = λ a b. b;
}

abbrev box : Container
box = record { container_path = "box"; removed = false }

created : (create_in (directory 0) "box" "/tmp/sbox" (fresh_once, false)).0 ≡ done box
unfolding create_in
created = refl

-- A process with open descriptors, whose flock fails.
abbrev process : ContainerCalls (ℤ → Bool)
process = record {
  locks = table_locks;
  exists = λ path w. ((false, 0), w);
  create_directory = λ path w. ((true, 0), w);
  remove_all = λ path w. ((1, 0), w);
  chroot = λ path w. (fine, w);
  chdir = λ path w. (fine, w);
  tmp_sbox = "/tmp/sbox";
  parent_path = λ path. "/tmp";
  join = λ a b. b;
}

abbrev process_apart : Apart process table_closing
process_apart = record { exists_keeps = λ path w n. refl; create_keeps = λ path w n. refl }

initialize_closes_example : (initialize process two_open).1 (pos 5) ≡ false
unfolding initialize
initialize_closes_example =
    initialize_closes process table_closing table_opening process_apart two_open (pos 5)
      (λ e. ground arith) (inr tt)

abbrev directory_on_path : OnPath (directory 0) "box"
directory_on_path = record { there = λ w. w; made = λ w e. refl; cleared = λ w e. refl }

-- A container that is made where nothing was, removed, and destroyed.
container_lifetime_example :
    (box.container_path ≡ "box")
    × (true ≡ true)
    × (false ≡ ((directory 0).remove_all "box" true).1)
    × ((record box { removed = true }).removed ≡ true)
    × (false ≡ false)
unfolding create_in remove_container destroy_container
container_lifetime_example =
    container_lifetime (directory 0) "box" "/tmp/sbox" directory_on_path fresh_once false box
      (record box { removed = true }) (record { invoked = true }) true true true false refl refl
