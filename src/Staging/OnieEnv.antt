-- ===== src/Staging/OnieEnv.antt =====
-- `GetOnieEnv`. Texts are their code points.
use das_boot.Prelude.{
  All, Bool-cases, Bytes, List, Option, String, [], bytes_equal, if◌then◌else◌, inl, inr, none,
  refl, some, ℕ, ◌==◌, ◌∷◌, ◌≡◌,
}
use das_boot.Prelude.Text.{codes, trim_space}

pub record OnieEnv : Type 0 where
  pub boot_reason : Bytes
  pub exec_url : Bytes
  pub platform : Bytes
  pub vendor_id : Bytes
  pub serial_num : Bytes
  pub eth_addr : Bytes
  pub version : Bytes
  pub build_machine : Bytes
  pub machine_rev : Bytes
  pub arch : Bytes
  pub build_platform : Bytes
  pub config_version : Bytes
  pub build_date : Bytes
  pub partition_type : Bytes
  pub kernel_version : Bytes
  pub firmware : Bytes
  pub switch_asic : Bytes
  pub skip_ethmgmt_macs : Bytes
  pub grub_image_name : Bytes
  pub uefi_boot_loader : Bytes
  pub uefi_arch : Bytes
  pub secure_boot_ext : Bytes
  pub secure_grub : Bytes
  pub secure_boot : Bytes
  pub machine : Bytes

-- `strings.SplitN(line, sep, 2)`, if it gives two parts; the separator is one character.
unfoldable pub split2 : ℕ → Bytes → Option (Bytes × Bytes)
split2 sep [] = none
split2 sep (c ∷ s) =
    let rest = split2 sep s in
    if c == sep then some ([], s) else elim rest [ none ↦ none | some (a, b) ↦ some (c ∷ a, b) ]

-- The cases of the switch, in order.
abbrev pub onie_keys : List (String × (Bytes → OnieEnv → OnieEnv))
onie_keys =
    ("onie_version", λ v e. record e { version = v })
    ∷ ("onie_vendor_id", λ v e. record e { vendor_id = v })
    ∷ ("onie_build_machine", λ v e. record e { build_machine = v })
    ∷ ("onie_machine_rev", λ v e. record e { machine_rev = v })
    ∷ ("onie_arch", λ v e. record e { arch = v })
    ∷ ("onie_build_platform", λ v e. record e { build_platform = v })
    ∷ ("onie_config_version", λ v e. record e { config_version = v })
    ∷ ("onie_build_date", λ v e. record e { build_date = v })
    ∷ ("onie_partition_type", λ v e. record e { partition_type = v })
    ∷ ("onie_kernel_version", λ v e. record e { kernel_version = v })
    ∷ ("onie_firmware", λ v e. record e { firmware = v })
    ∷ ("onie_switch_asic", λ v e. record e { switch_asic = v })
    ∷ ("onie_skip_ethmgmt_macs", λ v e. record e { skip_ethmgmt_macs = v })
    ∷ ("onie_grub_image_name", λ v e. record e { grub_image_name = v })
    ∷ ("onie_uefi_boot_loader", λ v e. record e { uefi_boot_loader = v })
    ∷ ("onie_uefi_arch", λ v e. record e { arch = v })
    ∷ ("onie_secure_boot_ext", λ v e. record e { secure_boot_ext = v })
    ∷ ("onie_secure_grub", λ v e. record e { secure_grub = v })
    ∷ ("onie_secure_boot", λ v e. record e { secure_boot = v })
    ∷ ("onie_machine", λ v e. record e { machine = v })
    ∷ ("onie_platform", λ v e. record e { platform = v })
    ∷ []

unfoldable pub set_by :
    List (String × (Bytes → OnieEnv → OnieEnv)) → Bytes → Bytes → OnieEnv → OnieEnv
set_by [] key val e = e
set_by ((k, f) ∷ fs) key val e =
    let rest = set_by fs key val e in if bytes_equal key (codes k) then f val e else rest

set_pair : Option (Bytes × Bytes) → OnieEnv → OnieEnv
set_pair none e = e
set_pair (some (key, val)) e = set_by onie_keys (trim_space key) (trim_space val) e

-- A line of /etc/machine.conf.
unfoldable pub set_line : Bytes → OnieEnv → OnieEnv
unfolding set_pair
set_line line e = set_pair (split2 61 line) e

unfoldable pub machine_conf_loop : List Bytes → OnieEnv → OnieEnv
machine_conf_loop [] e = e
machine_conf_loop (line ∷ lines) e = machine_conf_loop lines (set_line line e)

-- The arguments are `os.Getenv`, and the lines of /etc/machine.conf if it can be read.
unfoldable pub get_onie_env : (String → Bytes) → Option (List Bytes) → OnieEnv
get_onie_env getenv conf =
    let start : OnieEnv = record {
      boot_reason = getenv "onie_boot_reason";
      exec_url = getenv "onie_exec_url";
      platform = getenv "onie_platform";
      vendor_id = getenv "onie_vendor_id";
      serial_num = getenv "onie_serial_num";
      eth_addr = getenv "onie_eth_addr";
      version = [];
      build_machine = [];
      machine_rev = [];
      arch = [];
      build_platform = [];
      config_version = [];
      build_date = [];
      partition_type = [];
      kernel_version = [];
      firmware = [];
      switch_asic = [];
      skip_ethmgmt_macs = [];
      grub_image_name = [];
      uefi_boot_loader = [];
      uefi_arch = [];
      secure_boot_ext = [];
      secure_grub = [];
      secure_boot = [];
      machine = [];
    } in
    elim conf [ none ↦ start | some lines ↦ machine_conf_loop lines start ]

-- What keeps a property of all environments.
module _ (P : OnieEnv → Type 0) where
  set_by-kept :
      (fs : List (String × (Bytes → OnieEnv → OnieEnv))) (key val : Bytes) (e : OnieEnv)
      → All
          (λ (kf : String × (Bytes → OnieEnv → OnieEnv)).
            (v : Bytes) (e : OnieEnv) → P e → P (kf.1 v e))
          fs
      → P e
      → P (set_by fs key val e)
  unfolding set_by
  set_by-kept [] key val e keeps before = before
  set_by-kept ((k, f) ∷ fs) key val e (keep, keeps) before =
      elim (Bool-cases (bytes_equal key (codes k))) [
        | inl is ↦ rw is (keep val e before)
        | inr other ↦ rw other (set_by-kept fs key val e keeps before)
      ]

  set_pair-kept :
      (o : Option (Bytes × Bytes)) (e : OnieEnv)
      → All
          (λ (kf : String × (Bytes → OnieEnv → OnieEnv)).
            (v : Bytes) (e : OnieEnv) → P e → P (kf.1 v e))
          onie_keys
      → P e
      → P (set_pair o e)
  unfolding set_pair
  set_pair-kept none e keeps before = before
  set_pair-kept (some (key, val)) e keeps before =
      set_by-kept onie_keys (trim_space key) (trim_space val) e keeps before

  machine_conf_loop-kept :
      (lines : List Bytes) (e : OnieEnv)
      → All
          (λ (kf : String × (Bytes → OnieEnv → OnieEnv)).
            (v : Bytes) (e : OnieEnv) → P e → P (kf.1 v e))
          onie_keys
      → P e
      → P (machine_conf_loop lines e)
  unfolding machine_conf_loop set_line
  machine_conf_loop-kept [] e keeps before = before
  machine_conf_loop-kept (line ∷ lines) e keeps before =
      machine_conf_loop-kept lines _ keeps (set_pair-kept (split2 61 line) e keeps before)

-- Whatever /etc/machine.conf has for onie_uefi_arch, the UEFI architecture stays empty.
pub get_onie_env-uefi_arch :
    (getenv : String → Bytes) (conf : Option (List Bytes))
    → (get_onie_env getenv conf).uefi_arch ≡ []
unfolding get_onie_env
get_onie_env-uefi_arch getenv none = refl
get_onie_env-uefi_arch getenv (some lines) =
    machine_conf_loop-kept (λ e. e.uefi_arch ≡ []) lines _ (assumption) refl
