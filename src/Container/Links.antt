-- ===== src/Container/Links.antt =====
-- Bind links: the filter of one container (crates/psroot-bindlink/src/lib.rs) and its set-up for the
-- volumes (crates/psroot-container/src/container.rs).
use psroot.Prelude.{ℕ, Bool, Option, none, some, List, [], ◌∷◌, ◌++◌, ◌==◌, if◌then◌else◌}
use psroot.Text.{Text, codes}
use psroot.Container.{PsrootError, Result, ok, err, VolumeMount, Os}

abbrev pub flag_none : ℕ
flag_none = 0

abbrev pub flag_read_only : ℕ
flag_read_only = 1

module _ {W : Type 0} (os : Os W) where
  abbrev pub created :
      Text → Text → List (Text × Text) → ℕ × W → Result (Unit {0}) × (List (Text × Text) × W)
  created v b links (hr, h) =
      if hr == 0
      then (ok tt, (links ++ (v, b) ∷ [], h))
      else (err (PsrootError.h_result (codes "CreateBindLink") hr), (links, h))

  -- One link more in the filter; the links are left as they are when it fails.
  unfoldable pub create :
      Text → Text → Bool → List (Text × Text) → W → Result (Unit {0}) × (List (Text × Text) × W)
  create v b read_only links h =
      let flags = if read_only then flag_read_only else flag_none in
      if os.has_bind_apis then created v b links (os.create_bind_link v b flags h) else (
        err (PsrootError.unsupported (codes "CreateBindLink not available on this system")),
        (links, h),
      )

  -- The links are removed from the last to the first.
  abbrev pub remove_links : List (Text × Text) → W → W
  remove_links [] h = h
  remove_links ((v, b) ∷ links) h = os.remove_bind_link v (remove_links links h)

  unfoldable pub remove_all : List (Text × Text) → W → W
  remove_all links h = if os.has_bind_apis then remove_links links h else h

  -- What dropping a filter does.
  abbrev pub unlink : Option (List (Text × Text)) → W → W
  unfolding remove_all
  unlink none h = h
  unlink (some links) h = remove_all links h

  -- What the loop over the volumes makes; an error drops the filter, which removes its links.
  abbrev pub link_all :
      List VolumeMount → List (Text × Text) → W → Result (Option (List (Text × Text))) × W
  unfolding create remove_all
  link_all [] links h = (ok (some links), h)
  link_all (vol ∷ vols) links h =
      let r = create vol.container_path vol.host_path vol.read_only links h in
      elim r.0 [ ok u ↦ link_all vols r.1.0 r.1.1 | err e ↦ (err e, remove_all r.1.0 r.1.1) ]

  unfoldable pub setup_bind_links :
      Bool → List VolumeMount → W → Result (Option (List (Text × Text))) × W
  unfolding create remove_all
  setup_bind_links has_filter [] h = (ok none, h)
  setup_bind_links has_filter (vol ∷ vols) h =
      if has_filter then link_all (vol ∷ vols) [] h else (ok none, h)
