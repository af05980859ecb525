-- ===== src/Container/Lifetime.antt =====
-- One container from its constructor to its destructor, and its directory (sex/container.cpp).
use sex.Common.{String, Bool, true, false, if◌then◌else◌, ◌≡◌, ap, sym, ◌∙◌, arith}
use sex.Runtime.{done, Method, ◌>>◌}
use sex.Once.{Once, invoke}
use sex.Container.{
  Container, ContainerCalls, initialize, make_directory, create_in, remove_container,
  destroy_container,
}

-- What is documented of std::filesystem for one path: create_directory without an error leaves a
-- directory there, and remove_all without an error leaves nothing.
pub record OnPath {W : Type 0} (k : ContainerCalls W) (path : String) : Type 0 where
  pub there : W → Bool
  pub made :
      (w : W) → (k.create_directory path w).0.1 ≡ 0 → there (k.create_directory path w).1 ≡ true
  pub cleared : (w : W) → (k.remove_all path w).0.1 ≡ 0 → there (k.remove_all path w).1 ≡ false

module _ {W : Type 0} (k : ContainerCalls W) (name containers_path : String)
    (p : OnPath k (k.join containers_path name)) (o : Once) (w : W) where
  open p use {there, made, cleared}

  create_in_done :
      (c : Container) (o' : Once) (w' : W)
      → create_in k name containers_path (o, w) ≡ (done c, (o', w'))
      → (c ≡ record { container_path = k.join containers_path name; removed = false })
        × (there w' ≡ true)
  unfolding create_in make_directory
  create_in_done c o' w' e = ground (arith, made (invoke (initialize k) (o, w)).1.1)

  -- The end of an object: its destructor, after a call of `remove` or without one.
  abbrev ends : Bool → Method Container W (Unit {0})
  ends removes = if removes then remove_container k >> destroy_container k else destroy_container k

  ends_done :
      (removes : Bool) (w₁ w₂ : W) (c' : Container)
      → ends removes (record { container_path = k.join containers_path name; removed = false }, w₁)
        ≡ (done tt, (c', w₂))
      → (w₂ ≡ (k.remove_all (k.join containers_path name) w₁).1)
        × (c'.removed ≡ true)
        × (there w₂ ≡ false)
  unfolding remove_container destroy_container
  ends_done true w₁ w₂ c' e = ground (arith, cleared w₁)
  ends_done false w₁ w₂ c' e = ground (arith, cleared w₁)

  -- If create_directory and remove_all do what is documented: a container whose constructor has
  -- returned has the path of its name in the containers' directory, and its directory is there;
  -- and when, at any later time, the object has ended, with a call of `remove` or without, and
  -- nothing has thrown, remove_all of that path has been called once, and nothing else, and
  -- the directory is gone.
  pub container_lifetime :
      (c c' : Container) (o' : Once) (removes : Bool) (w₀ w₁ w₂ : W)
      → create_in k name containers_path (o, w) ≡ (done c, (o', w₀))
      → ends removes (c, w₁) ≡ (done tt, (c', w₂))
      → (c.container_path ≡ k.join containers_path name)
        × (there w₀ ≡ true)
        × (w₂ ≡ (k.remove_all (k.join containers_path name) w₁).1)
        × (c'.removed ≡ true)
        × (there w₂ ≡ false)
  container_lifetime c c' o' removes w₀ w₁ w₂ e d =
      let (same, present) = create_in_done c o' w₀ e in
      let d' = ap (λ x. ends removes (x, w₁)) (sym same) ∙ d in
      let (left, marked, gone) = ends_done removes w₁ w₂ c' d' in
      (ap (λ (x : Container). x.container_path) same, present, left, marked, gone)
