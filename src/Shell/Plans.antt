-- ===== src/Shell/Plans.antt =====
-- What a plan promises (crates/psroot-shell-resolver/src/resolve.rs).
use psroot.Prelude.{
  ◌≡◌, refl, sym, ap, ap₂, ◌∙◌, true, Bool-cases, inl, inr, Option, none, some, List, [], ◌∷◌, ◌++◌,
  map,
}
use mathlib.Core.Option.{some-injective}
use psroot.Text.{Text, codes, text_eq, text_eq→eq}
use psroot.Shell.{
  ShellResolverError, Result, ok, err, ◌>>=◌, ok_or, map_ok, CatalogFile, KnownCapability,
  capability_name, from_name, LaunchPlan, StageOp, AceGrant,
}
use psroot.Shell.Version
use psroot.Shell.Version.{VersionReq}
use psroot.Shell.Catalog.{Catalog, lookup}
use psroot.Shell.Substitute.{substitute, substitute_stage}
use psroot.Shell.Resolve.{
  ShellRequest, NetworkAccess, ResolveContext, HostShell, Machine, found, check_requested,
  check_min, check_parsed, launch_plan, vars_for, grant, env_pair, cap_names, capability, plan_for,
  resolve,
}

ok-injective : {A : Type 0} (a b : A) → ok a ≡ ok b → a ≡ b
ok-injective a b h = cc

ok_or-inv :
    {A : Type 0} (e : ShellResolverError) (o : Option A) (a : A) → ok_or e o ≡ ok a → o ≡ some a
ok_or-inv e none a h = cc
ok_or-inv e (some x) a h = ap (λ y. some y) (ok-injective x a h)

map_ok-inv :
    {A B : Type 0} (f : A → Result B) (g : B → A)
    → ((x : A) (y : B) → f x ≡ ok y → g y ≡ x)
    → (xs : List A) (ys : List B) → map_ok f xs ≡ ok ys
    → map g ys ≡ xs
map_ok-inv {A} {B} f g back [] ys h = ap (map g) (sym (ok-injective [] ys h))
map_ok-inv {A} {B} f g back (x ∷ xs) ys h =
    both (map_ok-inv f g back xs) (f x) (map_ok f xs) refl refl h
  where
    both :
        ((zs : List B) → map_ok f xs ≡ ok zs → map g zs ≡ xs)
        → (r : Result B) (s : Result (List B)) → f x ≡ r
        → map_ok f xs ≡ s
        → (do y ← r; zs ← s; ok (y ∷ zs)) ≡ ok ys
        → map g ys ≡ x ∷ xs
    both rec (err e) s er es h = cc
    both rec (ok y) (err e) er es h = cc
    both rec (ok y) (ok zs) er es h =
        ap (map g) (sym (ok-injective (y ∷ zs) ys h))
        ∙ ap₂ (λ (p : A) (ps : List A). p ∷ ps) (back x y er) (rec zs es)

from_name-inv : (c : Text) (k : KnownCapability) → from_name c ≡ some k → capability_name k ≡ c
unfolding from_name
from_name-inv c k h = elim (Bool-cases (text_eq c (codes "internetClient"))) [
  | inl e ↦ named KnownCapability.internet_client e (rw e at h)
  | inr e ↦ elim (Bool-cases (text_eq c (codes "internetClientServer"))) [
    | inl f ↦ named KnownCapability.internet_client_server f (rw (e, f) at h)
    | inr f ↦ elim (Bool-cases (text_eq c (codes "privateNetworkClientServer"))) [
      | inl g ↦ named KnownCapability.private_network_client_server g (rw (e, f, g) at h)
      | inr g ↦ let z = rw (e, f, g) at h in cc
    ]
  ]
]
  where
    named :
        (l : KnownCapability)
        → text_eq c (capability_name l) ≡ true
        → some l ≡ some k
        → capability_name k ≡ c
    named l e h =
        ap capability_name (sym (some-injective l k h)) ∙ sym (text_eq→eq c (capability_name l) e)

capability-inv :
    (shell c : Text) (k : KnownCapability) → capability shell c ≡ ok k → capability_name k ≡ c
unfolding capability
capability-inv shell c k h =
    from_name-inv c k (ok_or-inv (ShellResolverError.invalid_capability c) (from_name c) k h)

map-nil : (cs : List KnownCapability) → map capability_name cs ≡ [] → cs ≡ []
map-nil [] h = refl
map-nil (c ∷ cs) h = cc

-- The plan has the capabilities of the network mode, in the catalog's words, and ends with the
-- arguments and variables of the request.
pub record Fits (ctx : ResolveContext) (req : ShellRequest) (entry : CatalogFile) (host : HostShell)
    (plan : LaunchPlan) : Type 0 where
  pub caps_without : ctx.network ≡ NetworkAccess.no_network → plan.caps ≡ []
  pub caps_netstack : ctx.network ≡ NetworkAccess.netstack → plan.caps ≡ []
  pub caps_outbound :
      ctx.network ≡ NetworkAccess.outbound
      → map capability_name plan.caps ≡ entry.caps_when_outbound
  pub caps_full :
      ctx.network ≡ NetworkAccess.full → map capability_name plan.caps ≡ entry.caps_when_full
  pub version : plan.host_source_version ≡ host.version
  pub args : (own : List Text) × (plan.args ≡ own ++ req.args)
  pub env : (own : List (Text × Text)) × (plan.env ≡ own ++ req.env)

module _ (ctx : ResolveContext) (req : ShellRequest) (entry : CatalogFile) (host : HostShell)
    (plan : LaunchPlan) where
  assembled-Fits :
      (stage : Result (List StageOp)) (aces : Result (List AceGrant))
      (launch_entry cwd : Result Text) (args : Result (List Text))
      (env : Result (List (Text × Text))) (caps : Result (List KnownCapability))
      → map_ok (capability entry.name) (cap_names ctx.network entry) ≡ caps
      → (do
        s ← stage
        a ← aces
        l ← launch_entry
        w ← cwd
        g ← args
        v ← env
        c ← caps
        ok (launch_plan ctx req entry host s a l w g v c))
        ≡ ok plan
      → Fits ctx req entry host plan
  unfolding cap_names
  assembled-Fits (err e) aces l w g v c at_caps h = cc
  assembled-Fits (ok s) (err e) l w g v c at_caps h = cc
  assembled-Fits (ok s) (ok a) (err e) w g v c at_caps h = cc
  assembled-Fits (ok s) (ok a) (ok l) (err e) g v c at_caps h = cc
  assembled-Fits (ok s) (ok a) (ok l) (ok w) (err e) v c at_caps h = cc
  assembled-Fits (ok s) (ok a) (ok l) (ok w) (ok g) (err e) c at_caps h = cc
  assembled-Fits (ok s) (ok a) (ok l) (ok w) (ok g) (ok v) (err e) at_caps h = cc
  assembled-Fits (ok s) (ok a) (ok l) (ok w) (ok g) (ok v) (ok c) at_caps h =
      let same = sym (ok-injective (launch_plan ctx req entry host s a l w g v c) plan h) in
      let caps : map capability_name plan.caps ≡ cap_names ctx.network entry =
        ap (λ (p : LaunchPlan). map capability_name p.caps) same
        ∙ map_ok-inv (capability entry.name) capability_name (capability-inv entry.name)
            (cap_names ctx.network entry) c at_caps in
      let named =
        λ (n : NetworkAccess) (e : ctx.network ≡ n). caps ∙ ap (λ m. cap_names m entry) e in
      record {
        caps_without = λ e. map-nil plan.caps (named NetworkAccess.no_network e);
        caps_netstack = λ e. map-nil plan.caps (named NetworkAccess.netstack e);
        caps_outbound = named NetworkAccess.outbound;
        caps_full = named NetworkAccess.full;
        version = ap (λ (p : LaunchPlan). p.host_source_version) same;
        args = (g, ap (λ (p : LaunchPlan). p.args) same);
        env = (v, ap (λ (p : LaunchPlan). p.env) same);
      }

  plan_for-Fits :
      (machine : Machine)
      → plan_for machine ctx req entry host ≡ ok plan
      → Fits ctx req entry host plan
  unfolding plan_for
  plan_for-Fits machine h =
      let vars = vars_for machine ctx entry host in
      assembled-Fits (map_ok (substitute_stage machine.builtin_module vars) entry.stage)
        (map_ok (grant vars) entry.ace) (substitute entry.launch.entry vars)
        (substitute entry.launch.cwd vars) (map_ok (λ a. substitute a vars) entry.launch.args)
        (map_ok (env_pair vars) entry.launch.env)
        (map_ok (capability entry.name) (cap_names ctx.network entry)) refl h

-- The plan's shell is the one of the catalog and of the host, it meets the version asked for and the
-- catalog's least version, where that parses, and it fits.
pub record Resolved (catalog : Catalog) (machine : Machine) (req : ShellRequest)
    (ctx : ResolveContext) (plan : LaunchPlan) : Type 0 where
  pub entry : CatalogFile
  pub host : HostShell
  pub listed : lookup req.name catalog ≡ some entry
  installed : machine.find entry ≡ some (some host)
  pub asked : (r : VersionReq) → req.version ≡ some r → Version.matches r host.version ≡ true
  pub least :
      (min : Text) (r : VersionReq)
      → entry.min_version ≡ some (some min)
      → Version.parse (codes ">=" ++ min) ≡ some r
      → Version.matches r host.version ≡ true
  pub fits : Fits ctx req entry host plan

check_requested-inv :
    (entry : CatalogFile) (host : HostShell) (r : VersionReq) (u : Unit {0})
    → check_requested entry host (some r) ≡ ok u
    → Version.matches r host.version ≡ true
check_requested-inv entry host r u h = elim (Bool-cases (Version.matches r host.version)) [
  | inl e ↦ e
  | inr e ↦ let f = rw e at h in cc
]

check_parsed-inv :
    (entry : CatalogFile) (host : HostShell) (min : Text) (r : VersionReq) (u : Unit {0})
    → check_parsed entry host min (some r) ≡ ok u
    → Version.matches r host.version ≡ true
check_parsed-inv entry host min r u h = elim (Bool-cases (Version.matches r host.version)) [
  | inl e ↦ e
  | inr e ↦ let f = rw e at h in cc
]

module _ (catalog : Catalog) (machine : Machine) (req : ShellRequest) (ctx : ResolveContext)
    (plan : LaunchPlan) where
  -- A plan is only made for a shell that the catalog lists and the probe finds, in a version that meets
  -- the request's constraint, and the catalog's least version if the text of that one parses; its
  -- capabilities are those that the catalog names for the outbound and the full network, and none without
  -- network or over the netstack, and its arguments and variables end with those of the request.
  pub resolve-Resolved :
      resolve catalog machine req ctx ≡ ok plan → Resolved catalog machine req ctx plan
  unfolding resolve
  resolve-Resolved h = listed (lookup req.name catalog) refl h
    where
      checked :
          (entry : CatalogFile) (host : HostShell)
          → lookup req.name catalog ≡ some entry
          → machine.find entry ≡ some (some host)
          → (a b : Result (Unit {0})) → check_requested entry host req.version ≡ a
          → check_min entry host entry.min_version ≡ b
          → (do u ← a; v ← b; plan_for machine ctx req entry host) ≡ ok plan
          → Resolved catalog machine req ctx plan
      checked entry host l i (err e) b ea eb h = cc
      checked entry host l i (ok u) (err e) ea eb h = cc
      checked entry host l i (ok u) (ok v) ea eb h = record {
        entry = entry;
        host = host;
        listed = l;
        installed = i;
        asked = λ r e.
            check_requested-inv entry host r u (ap (check_requested entry host) (sym e) ∙ ea);
        least = λ min r e p.
            check_parsed-inv entry host min r v
              (ap (check_parsed entry host min) (sym p) ∙ (ap (check_min entry host) (sym e) ∙ eb));
        fits = plan_for-Fits ctx req entry host plan machine h;
      }

      probed :
          (entry : CatalogFile) (o : Option (Option HostShell))
          → lookup req.name catalog ≡ some entry
          → machine.find entry ≡ o
          → (do
            host ← found entry o
            u ← check_requested entry host req.version
            v ← check_min entry host entry.min_version
            plan_for machine ctx req entry host)
            ≡ ok plan
          → Resolved catalog machine req ctx plan
      probed entry none l i h = cc
      probed entry (some none) l i h = cc
      probed entry (some (some host)) l i h =
          checked entry host l i (check_requested entry host req.version)
            (check_min entry host entry.min_version) refl refl h

      listed :
          (o : Option CatalogFile)
          → lookup req.name catalog ≡ o
          → (do
            entry ← ok_or (ShellResolverError.unknown_shell req.name) o
            host ← found entry (machine.find entry)
            u ← check_requested entry host req.version
            v ← check_min entry host entry.min_version
            plan_for machine ctx req entry host)
            ≡ ok plan
          → Resolved catalog machine req ctx plan
      listed none l h = cc
      listed (some entry) l h = probed entry (machine.find entry) l refl h
