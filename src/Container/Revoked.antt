-- ===== src/Container/Revoked.antt =====
-- What the removal of a container takes back (crates/psroot-container/src/container.rs,
-- crates/psroot-rootfs-stager/src/lib.rs).
use psroot.Prelude.{
  ap, ◌∙◌, ◌≡◌, Bool, false, Bool-cases, inl, inr, Option, none, some, List, [], ◌∷◌, ◌++◌, All,
}
use psroot.Text.{Text}
use psroot.Container.{AceGrantRecord, StateFile, CacheManifest, Os, World}
use psroot.Container.Start.{grants_of, read_state}
use psroot.Container.Life.{
  revoke_ace_record, revoke_all, unreferenced, unreference_cache, unreference_all, forgotten,
  forget,
}
use psroot.Container.Runs.{Call, run}
use psroot.Container.Grants.{KeepsFile, read_whole, run-Grows}

-- What icacls does to the grants of the host: a path that is gone has none, removing a SID from a path
-- takes its grant back, and neither that nor writing a manifest gives one.
pub record Revokes {W : Type 0} (os : Os W) (granted : Text → Text → W → Bool) : Type 0 where
  pub gone : (p s : Text) (h : W) → os.path_exists p h ≡ false → granted p s h ≡ false
  pub taken : (p s : Text) (h : W) → granted p s (os.icacls_remove p s h) ≡ false
  pub kept :
      (p s q t : Text) (h : W)
      → granted p s h ≡ false
      → granted p s (os.icacls_remove q t h) ≡ false
  pub unwritten :
      (p s d : Text) (m : CacheManifest) (h : W)
      → granted p s h ≡ false
      → granted p s (os.save_manifest d m h) ≡ false

module _ {W : Type 0} (os : Os W) (granted : Text → Text → W → Bool)
    (icacls : Revokes os granted) where
  abbrev pub IsRevoked : W → AceGrantRecord → Type 0
  IsRevoked h rec = granted rec.path rec.sid h ≡ false

  revoke_ace_record_takes :
      (rec : AceGrantRecord) (h : W) → IsRevoked (revoke_ace_record os rec h) rec
  revoke_ace_record_takes rec h = elim (Bool-cases (os.path_exists rec.path h)) [
    | inl e ↦ rw e (icacls.taken rec.path rec.sid h)
    | inr e ↦ rw e (icacls.gone rec.path rec.sid h e)
  ]

  revoke_ace_record_keeps :
      (rec other : AceGrantRecord) (h : W)
      → IsRevoked h rec
      → IsRevoked (revoke_ace_record os other h) rec
  revoke_ace_record_keeps rec other h k = elim (Bool-cases (os.path_exists other.path h)) [
    | inl e ↦ rw e (icacls.kept rec.path rec.sid other.path other.sid h k)
    | inr e ↦ rw e k
  ]

  revoke_all_keeps :
      (rec : AceGrantRecord) (recs : List AceGrantRecord) (h : W)
      → IsRevoked h rec
      → IsRevoked (revoke_all os recs h) rec
  revoke_all_keeps rec [] h k = k
  revoke_all_keeps rec (other ∷ recs) h k =
      revoke_all_keeps rec recs (revoke_ace_record os other h)
        (revoke_ace_record_keeps rec other h k)

  unreferenced_keeps :
      (rec : AceGrantRecord) (dir id : Text) (m : Option CacheManifest) (h : W)
      → IsRevoked h rec
      → IsRevoked (unreferenced os dir id m h) rec
  unreferenced_keeps rec dir id none h k = k
  unreferenced_keeps rec dir id (some m) h k = icacls.unwritten rec.path rec.sid dir _ h k

  unreference_all_keeps :
      (rec : AceGrantRecord) (id : Text) (dirs : List Text) (h : W)
      → IsRevoked h rec
      → IsRevoked (unreference_all os id dirs h) rec
  unreference_all_keeps rec id [] h k = k
  unreference_all_keeps rec id (dir ∷ dirs) h k =
      unreference_all_keeps rec id dirs (unreference_cache os dir id h)
        (unreferenced_keeps rec dir id (os.load_manifest dir h) h k)

  -- The records before some others are all revoked with them.
  revoke_all-IsRevoked :
      (id : Text) (dirs : List Text) (recs more : List AceGrantRecord) (h : W)
      → All (IsRevoked (unreference_all os id dirs (revoke_all os (recs ++ more) h))) recs
  revoke_all-IsRevoked id dirs [] more h = tt
  revoke_all-IsRevoked id dirs (rec ∷ recs) more h =
      let h' = revoke_ace_record os rec h in
      (
        unreference_all_keeps rec id dirs (revoke_all os (recs ++ more) h')
            (revoke_all_keeps rec (recs ++ more) h' (revoke_ace_record_takes rec h)),
        revoke_all-IsRevoked id dirs recs more h',
      )

  forgotten_revokes :
      (id : Text) (json : Option StateFile) (recs more : List AceGrantRecord) (h : W)
      → grants_of json ≡ recs ++ more
      → All (IsRevoked (forgotten os id json h)) recs
  forgotten_revokes id none [] more h q = tt
  forgotten_revokes id none (rec ∷ recs) more h q = cc
  forgotten_revokes id (some sf) recs more h q =
      rw q (revoke_all-IsRevoked id sf.cache_refs recs more h)

  -- Each grant that state.json has recorded at some time is taken back by the step of remove that reads
  -- the record, whatever was called in between and whichever of the calls of the system failed, reads of
  -- state.json excepted, if a failed write leaves the file as it was and icacls revokes what it is asked
  -- to.
  pub forget_revokes :
      (keeps : KeepsFile os) (cs : List Call) (w : World W)
      → All (IsRevoked (forget os (run os cs w)).1.host) (grants_of w.state_json)
  forget_revokes keeps cs w =
      let w' = run os cs w in
      let grown = (run-Grows os keeps cs w).0 in
      forgotten_revokes w'.container.id (read_state os w') (grants_of w.state_json) grown.0 w'.host
        (ap grants_of (read_whole os keeps w') ∙ grown.1)
