-- ===== src/CommandLine/Paths.antt =====
-- What the parsers of volumes and bind specifications make of Windows paths
-- (crates/psroot-cli/src/main_windows.rs).
use psroot.Prelude.{
  ℕ, suc, ◌+◌, ◌-◌, ◌≡◌, refl, ap, ap₂, ◌∙◌, Bool, true, false, Option, some, [], ◌∷◌, ◌++◌, ◌==◌,
  length, take, drop, arith,
}
use psroot.Text.{Text, codes, text_eq}
use psroot.Text.Split.{Lacks, cut_at-append}
use psroot.CommandLine.{
  parse_volume, volume_parts, last_parts, ok, is_alphabetic, is_slash, scan, nonempty, separated,
  parse_body,
}

-- A volume whose host path has a drive letter: the letter is taken for the host path, and the rest of the
-- host path for the path in the container.
pub parse_volume-drive :
    (d : ℕ) (path container : Text)
    → (d == b':') ≡ false
    → Lacks b':' path
    → parse_volume (d ∷ b':' ∷ (path ++ b':' ∷ container))
      ≡ some (record {
        host_path = d ∷ [];
        container_path = path;
        read_only = text_eq container (codes "ro");
      })
unfolding parse_volume
parse_volume-drive d path container h plain =
    ap volume_parts (cut_at-append b':' (d ∷ []) (path ++ b':' ∷ container) (h, tt))
    ∙ ap (λ (o : Option (Text × Text)). some (last_parts (d ∷ []) (path ++ b':' ∷ container) o))
        (cut_at-append b':' path container plain)

letter_no_slash : (c : ℕ) → is_alphabetic c ≡ true → is_slash c ≡ false
letter_no_slash c h = ground arith

-- A colon before a drive letter is the separator.
scan-drive :
    (p2 p1 i e : ℕ) (path rest : Text)
    → Lacks b':' path
    → is_alphabetic e ≡ true
    → scan p2 p1 i (path ++ b':' ∷ e ∷ b':' ∷ rest) ≡ some (i + length path)
scan-drive p2 p1 i e [] rest h letter =
    let here : i ≡ i + 0 = omega arith in
    rw (letter_no_slash e letter, letter) (ap (λ (n : ℕ). some n) here)
scan-drive p2 p1 i e (c ∷ path) rest h letter =
    let next : suc i + length path ≡ i + suc (length path) = omega arith in
    rw h.0 (scan-drive p1 c (suc i) e path rest h.1 letter ∙ ap (λ (n : ℕ). some n) next)

-- A last directory of one letter before the separator is taken for a drive.
scan-letter :
    (p2 p1 i sep letter slash : ℕ) (path rest : Text)
    → Lacks b':' path
    → (sep == b':') ≡ false
    → is_slash sep ≡ true
    → (letter == b':') ≡ false
    → is_alphabetic letter ≡ true
    → is_slash slash ≡ true
    → scan p2 p1 i (path ++ sep ∷ letter ∷ b':' ∷ slash ∷ rest) ≡ some (i + length path)
scan-letter p2 p1 i sep letter slash [] rest h s0 s1 l0 l1 t =
    let here : suc (suc i) - 2 ≡ i + 0 = omega arith in
    rw (s0, l0, t, l1, s1) (ap (λ (n : ℕ). some n) here)
scan-letter p2 p1 i sep letter slash (c ∷ path) rest h s0 s1 l0 l1 t =
    let next : suc i + length path ≡ i + suc (length path) = omega arith in
    rw h.0 (
      scan-letter p1 c (suc i) sep letter slash path rest h.1 s0 s1 l0 l1 t
      ∙ ap (λ (n : ℕ). some n) next)

take_before : (s t : Text) → take (length s) (s ++ t) ≡ s
take_before [] t = refl
take_before (c ∷ s) t = ap (λ (l : Text). c ∷ l) (take_before s t)

drop_after : (s : Text) (c : ℕ) (t : Text) → drop (suc (length s)) (s ++ c ∷ t) ≡ t
drop_after [] c t = refl
drop_after (a ∷ s) c t = drop_after s c t

-- What is found between a host path with a drive letter and the rest.
parse_body-found :
    (d x : ℕ) (host container : Text) (read_only : Bool)
    → scan d b':' 2 (x ∷ (host ++ b':' ∷ container)) ≡ some (2 + length (x ∷ host))
    → parse_body (d ∷ b':' ∷ x ∷ (host ++ b':' ∷ container)) read_only
      ≡ nonempty (d ∷ b':' ∷ x ∷ host) container read_only
unfolding parse_body
parse_body-found d x host container read_only found =
    let index : 2 + length (x ∷ host) ≡ length (d ∷ b':' ∷ x ∷ host) = omega arith in
    let body = d ∷ b':' ∷ x ∷ (host ++ b':' ∷ container) in
    ap (separated body read_only) (found ∙ ap (λ (n : ℕ). some n) index)
    ∙ ap₂ (λ (h c : Text). nonempty h c read_only)
        (take_before (d ∷ b':' ∷ x ∷ host) (b':' ∷ container))
        (drop_after (d ∷ b':' ∷ x ∷ host) b':' container)

-- A bind specification of two Windows paths with drive letters is read as these two, when the host path
-- has no other colon.
pub parse_body-drives :
    (d x e : ℕ) (host rest : Text) (read_only : Bool)
    → Lacks b':' (x ∷ host)
    → is_alphabetic e ≡ true
    → parse_body (d ∷ b':' ∷ x ∷ (host ++ b':' ∷ e ∷ b':' ∷ rest)) read_only
      ≡ ok (record {
        host_path = d ∷ b':' ∷ x ∷ host;
        container_path = e ∷ b':' ∷ rest;
        read_only = read_only;
      })
parse_body-drives d x e host rest read_only plain letter =
    parse_body-found d x host (e ∷ b':' ∷ rest) read_only
      (scan-drive d b':' 2 e (x ∷ host) rest plain letter)

-- A host path whose last directory is one letter, before a path without a drive: the directory is taken
-- for the drive of the path in the container, and the host path ends before it.
pub parse_body-letter :
    (d x sep letter slash : ℕ) (host rest : Text) (read_only : Bool)
    → Lacks b':' (x ∷ host)
    → (sep == b':') ≡ false
    → is_slash sep ≡ true
    → (letter == b':') ≡ false
    → is_alphabetic letter ≡ true
    → is_slash slash ≡ true
    → parse_body (d ∷ b':' ∷ x ∷ (host ++ sep ∷ letter ∷ b':' ∷ slash ∷ rest)) read_only
      ≡ ok (record {
        host_path = d ∷ b':' ∷ x ∷ host;
        container_path = letter ∷ b':' ∷ slash ∷ rest;
        read_only = read_only;
      })
unfolding parse_body
parse_body-letter d x sep letter slash host rest read_only plain s0 s1 l0 l1 t =
    let found = scan-letter d b':' 2 sep letter slash (x ∷ host) rest plain s0 s1 l0 l1 t in
    let index : 2 + length (x ∷ host) ≡ length (d ∷ b':' ∷ x ∷ host) = omega arith in
    let tail = letter ∷ b':' ∷ slash ∷ rest in
    ap (separated (d ∷ b':' ∷ x ∷ (host ++ sep ∷ tail)) read_only)
      (found ∙ ap (λ (n : ℕ). some n) index)
    ∙ ap₂ (λ (h c : Text). nonempty h c read_only) (take_before (d ∷ b':' ∷ x ∷ host) (sep ∷ tail))
        (drop_after (d ∷ b':' ∷ x ∷ host) sep tail)
