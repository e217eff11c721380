-- ===== src/Container/Released.antt =====
-- What stop ends on the host (crates/psroot-container/src/container.rs).
use psroot.Prelude.{
  ℕ, ◌≡◌, refl, sym, subst, ap, true, false, Bool, Bool-cases, inl, inr, Option, none, some, List,
  [], ◌∷◌, All,
}
use psroot.Text.{Text}
use psroot.PortMap.{PortMapping}
use psroot.Container.{
  ContainerState, is_running, ok, StateFile, Silo, Runtime, no_runtime, Saved, saved, kept, torn,
  Os, World,
}
use psroot.Container.Links.{remove_links, remove_all, unlink}
use psroot.Container.Publish.{shutdown}
use psroot.Container.Start.{drop_netstack, written, write_state, read_state, state_of}
use psroot.Container.Life.{end_silo, end_job, stop}
use psroot.Container.Records.{released}
use psroot.Container.Ends.{Ended, stop-Ended, stop_idle}

-- What a runtime keeps alive on the host.
pub data Resource : Type 0 where
  job netstack : ℕ → Resource
  link : Text → Resource
  proxies : List PortMapping → Resource

abbrev pub host_of : {W : Type 0} → Saved W → W
host_of (saved h) = h
host_of (kept e h) = h
host_of (torn e h) = h

-- What the calls that end something do: each ends what it is called for, and none of them, nor a write of
-- state.json, brings anything back. The jobs are closed for the last time, and end with that.
pub record Releases {W : Type 0} (os : Os W) (live : Resource → W → Bool) : Type 0 where
  pub job_ends : (j : ℕ) (h : W) → live (Resource.job j) (os.job_close j h) ≡ false
  pub netstack_ends : (n : ℕ) (h : W) → live (Resource.netstack n) (os.stop_netstack n h) ≡ false
  pub link_ends : (v : Text) (h : W) → live (Resource.link v) (os.remove_bind_link v h) ≡ false
  pub proxies_end :
      (ms : List PortMapping) (h : W) → live (Resource.proxies ms) (os.stop_proxies ms h) ≡ false
  pub no_links : os.has_bind_apis ≡ false → (v : Text) (h : W) → live (Resource.link v) h ≡ false
  pub job_close_keeps :
      (r : Resource) (j : ℕ) (h : W) → live r h ≡ false → live r (os.job_close j h) ≡ false
  pub job_terminate_keeps :
      (r : Resource) (j c : ℕ) (h : W) → live r h ≡ false → live r (os.job_terminate j c h) ≡ false
  pub netstack_keeps :
      (r : Resource) (n : ℕ) (h : W) → live r h ≡ false → live r (os.stop_netstack n h) ≡ false
  pub link_keeps :
      (r : Resource) (v : Text) (h : W)
      → live r h ≡ false
      → live r (os.remove_bind_link v h) ≡ false
  pub proxies_keep :
      (r : Resource) (ms : List PortMapping) (h : W)
      → live r h ≡ false
      → live r (os.stop_proxies ms h) ≡ false
  pub save_keeps :
      (r : Resource) (sf : StateFile) (h : W)
      → live r h ≡ false
      → live r (host_of (os.save sf h)) ≡ false

-- Each part of a runtime has ended on the host.
module _ {W : Type 0} (live : Resource → W → Bool) where
  abbrev pub SiloEnded : Option Silo → W → Type 0
  SiloEnded none h = Unit
  SiloEnded (some silo) h = live (Resource.job silo.handle) h ≡ false

  abbrev pub JobEnded : Option ℕ → W → Type 0
  JobEnded none h = Unit
  JobEnded (some j) h = live (Resource.job j) h ≡ false

  abbrev pub LinksEnded : Option (List (Text × Text)) → W → Type 0
  LinksEnded none h = Unit
  LinksEnded (some links) h = All (λ (l : Text × Text). live (Resource.link l.0) h ≡ false) links

  abbrev pub ProxiesEnded : Option (List PortMapping) → W → Type 0
  ProxiesEnded none h = Unit
  ProxiesEnded (some ms) h = live (Resource.proxies ms) h ≡ false

  abbrev pub NetstackEnded : Option ℕ → W → Type 0
  NetstackEnded none h = Unit
  NetstackEnded (some n) h = live (Resource.netstack n) h ≡ false

  abbrev pub Released : Runtime → W → Type 0
  Released r h =
      SiloEnded r.silo h
      × JobEnded r.job h
      × LinksEnded r.bind_filter h
      × ProxiesEnded r.port_mapper h
      × NetstackEnded r.netstack h

  -- What has ended on one host and stays ended on another has ended there.
  abbrev Stay : W → W → Type 0
  Stay h h' = (r : Resource) → live r h ≡ false → live r h' ≡ false

  silo_persists : (o : Option Silo) (h h' : W) → Stay h h' → SiloEnded o h → SiloEnded o h'
  silo_persists none h h' k e = tt
  silo_persists (some silo) h h' k e = k (Resource.job silo.handle) e

  job_persists : (o : Option ℕ) (h h' : W) → Stay h h' → JobEnded o h → JobEnded o h'
  job_persists none h h' k e = tt
  job_persists (some j) h h' k e = k (Resource.job j) e

  all_persist :
      (links : List (Text × Text)) (h h' : W)
      → Stay h h'
      → All (λ (l : Text × Text). live (Resource.link l.0) h ≡ false) links
      → All (λ (l : Text × Text). live (Resource.link l.0) h' ≡ false) links
  all_persist [] h h' k e = tt
  all_persist (l ∷ links) h h' k e = (k (Resource.link l.0) e.0, all_persist links h h' k e.1)

  links_persist :
      (o : Option (List (Text × Text))) (h h' : W) → Stay h h' → LinksEnded o h → LinksEnded o h'
  links_persist none h h' k e = tt
  links_persist (some links) h h' k e = all_persist links h h' k e

  proxies_persist :
      (o : Option (List PortMapping)) (h h' : W) → Stay h h' → ProxiesEnded o h → ProxiesEnded o h'
  proxies_persist none h h' k e = tt
  proxies_persist (some ms) h h' k e = k (Resource.proxies ms) e

  netstack_persists : (o : Option ℕ) (h h' : W) → Stay h h' → NetstackEnded o h → NetstackEnded o h'
  netstack_persists none h h' k e = tt
  netstack_persists (some n) h h' k e = k (Resource.netstack n) e

module _ {W : Type 0} (os : Os W) (live : Resource → W → Bool) (laws : Releases os live) where
  silo_ends : (o : Option Silo) (h : W) → SiloEnded live o (end_silo os o h)
  silo_ends none h = tt
  silo_ends (some silo) h = laws.job_ends silo.handle (os.job_terminate silo.handle 0 h)

  job_ends : (o : Option ℕ) (h : W) → JobEnded live o (end_job os o h)
  job_ends none h = tt
  job_ends (some j) h = laws.job_ends j (os.job_terminate j 0 h)

  end_job_stays : (o : Option ℕ) (h : W) → Stay live h (end_job os o h)
  end_job_stays none h r e = e
  end_job_stays (some j) h r e =
      laws.job_close_keeps r j (os.job_terminate j 0 h) (laws.job_terminate_keeps r j 0 h e)

  remove_links_persist :
      (links : List (Text × Text)) (h : W) → Stay live h (remove_links os links h)
  remove_links_persist [] h r e = e
  remove_links_persist ((v, b) ∷ links) h r e =
      laws.link_keeps r v (remove_links os links h) (remove_links_persist links h r e)

  remove_links_end :
      (links : List (Text × Text)) (h : W)
      → All (λ (l : Text × Text). live (Resource.link l.0) (remove_links os links h) ≡ false) links
  remove_links_end [] h = tt
  remove_links_end ((v, b) ∷ links) h =
      let h' = remove_links os links h in
      (
        laws.link_ends v h',
        all_persist live links h' (os.remove_bind_link v h') (λ r e. laws.link_keeps r v h' e)
            (remove_links_end links h),
      )

  never_linked :
      (links : List (Text × Text)) (h : W)
      → os.has_bind_apis ≡ false
      → All (λ (l : Text × Text). live (Resource.link l.0) h ≡ false) links
  never_linked [] h e = tt
  never_linked (l ∷ links) h e = (laws.no_links e l.0 h, never_linked links h e)

  links_end : (o : Option (List (Text × Text))) (h : W) → LinksEnded live o (unlink os o h)
  unfolding remove_all
  links_end none h = tt
  links_end (some links) h = elim (Bool-cases os.has_bind_apis) [
    | inl e ↦ rw e (remove_links_end links h)
    | inr e ↦ rw e (never_linked links h e)
  ]

  unlink_stays : (o : Option (List (Text × Text))) (h : W) → Stay live h (unlink os o h)
  unfolding remove_all
  unlink_stays none h r e = e
  unlink_stays (some links) h r e = elim (Bool-cases os.has_bind_apis) [
    | inl b ↦ rw b (remove_links_persist links h r e)
    | inr b ↦ rw b e
  ]

  proxies_end : (o : Option (List PortMapping)) (h : W) → ProxiesEnded live o (shutdown os o h)
  proxies_end none h = tt
  proxies_end (some ms) h = laws.proxies_end ms h

  shutdown_stays : (o : Option (List PortMapping)) (h : W) → Stay live h (shutdown os o h)
  shutdown_stays none h r e = e
  shutdown_stays (some ms) h r e = laws.proxies_keep r ms h e

  netstack_ends : (o : Option ℕ) (h : W) → NetstackEnded live o (drop_netstack os o h)
  netstack_ends none h = tt
  netstack_ends (some n) h = laws.netstack_ends n h

  drop_netstack_stays : (o : Option ℕ) (h : W) → Stay live h (drop_netstack os o h)
  drop_netstack_stays none h r e = e
  drop_netstack_stays (some n) h r e = laws.netstack_keeps r n h e

  -- After the five parts have been taken out, and after any step that keeps what has ended.
  released-Released :
      (r : Runtime) (h end : W) → Stay live (released os r h) end → Released live r end
  released-Released r h end last =
      let h1 = end_silo os r.silo h in
      let h2 = end_job os r.job h1 in
      let h3 = unlink os r.bind_filter h2 in
      let h4 = shutdown os r.port_mapper h3 in
      let from4 : Stay live h4 end = λ x e. last x (drop_netstack_stays r.netstack h4 x e) in
      let from3 : Stay live h3 end = λ x e. from4 x (shutdown_stays r.port_mapper h3 x e) in
      let from2 : Stay live h2 end = λ x e. from3 x (unlink_stays r.bind_filter h2 x e) in
      let from1 : Stay live h1 end = λ x e. from2 x (end_job_stays r.job h1 x e) in
      (
        silo_persists live r.silo h1 end from1 (silo_ends r.silo h),
        job_persists live r.job h2 end from2 (job_ends r.job h1),
        links_persist live r.bind_filter h3 end from3 (links_end r.bind_filter h2),
        proxies_persist live r.port_mapper h4 end from4 (proxies_end r.port_mapper h3),
        netstack_persists live r.netstack (released os r h) end last (netstack_ends r.netstack h4),
      )

  written_host :
      (sf : StateFile) (w : World W) (s : Saved W) → (written os sf w s).1.host ≡ host_of s
  written_host sf w (saved h) = refl
  written_host sf w (kept e h) = refl
  written_host sf w (torn e h) = refl

  stop-Released :
      (w : World W)
      → is_running w.container.state ≡ true
      → Released live w.container.runtime (stop os w).1.host
  unfolding stop write_state
  stop-Released w e =
      let h = released os w.container.runtime w.host in
      let w' = record w {
        container = record w.container { state = ContainerState.stopped; runtime = no_runtime };
        host = h;
      } in
      let sf = state_of w'.container (read_state os w') in
      let host = written_host sf w' (os.save sf h) in
      rw e (
        released-Released w.container.runtime w.host (written os sf w' (os.save sf h)).1.host
          (λ r k. subst (λ end. live r end ≡ false) (sym host) (laws.save_keeps r sf h k)))

  -- When a running container is stopped, its silo, its job, each of its links, its proxies and its
  -- netstack have ended on the host, even when the record cannot be written; the container then holds
  -- none of them, and a second stop succeeds and changes nothing. Each call that ends something does so,
  -- and none of them brings back what has ended.
  pub stop-stop :
      (w : World W)
      → is_running w.container.state ≡ true
      → Released live w.container.runtime (stop os w).1.host
        × Ended os (stop os w).1
        × (stop os (stop os w).1 ≡ (ok tt, (stop os w).1))
  stop-stop w e =
      let ended = stop-Ended os w e in
      (stop-Released w e, ended, stop_idle os (stop os w).1 (ap is_running ended.0))
