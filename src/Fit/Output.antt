-- ===== src/Fit/Output.antt =====
-- `parse_fit_output` of crates/localx-llama-core/src/fit.rs: where the fitter put a model.
pub mod Arguments
pub mod Devices
use localx_llama.Prelude.{
  ok, not, ltb, all, unwrap_or, err, ◌&&◌, ◌||◌, ◌∷◌, false, Result, if◌then◌else◌, ◌++◌, ℕ, ◌-◌,
  Bool, Option, none, some, List, [], ◌==◌, length, ◌>>=?◌, ◌^◌,
}
use localx_llama.Prelude.Int.{ℤ}
use localx_llama.Text.{
  Text, codes, trim, trim_end, strip_prefix, split_once, is_empty, is_whitespace, contains,
  contains_text, ◌=ᵗ◌,
}
use localx_llama.Text.Lines.{lines}
use localx_llama.Text.Numbers.{is_digit, parse_digits, parse_unsigned, parse_i64}

pub record DeviceFit : Type 0 where
  pub name : Text
  pub layers : ℕ
  pub overflowing : ℕ
  pub used_mib : ℕ
  pub free_mib : ℕ

pub record FitPlacement : Type 0 where
  pub context : Option ℤ
  pub gpu_layers : ℤ
  pub cpu_expert_blocks : List ℕ
  pub tensor_overrides : Option Text
  pub devices : List DeviceFit

-- `n_cpu_moe`; a list of blocks is far shorter than `i64::MAX`.
abbrev pub n_cpu_moe : FitPlacement → ℕ
n_cpu_moe placement = length placement.cpu_expert_blocks

pub data FitError : Type 0 where
  failed : Text → FitError
  unrecognised : FitError

-- What a character of an argument line is, inside or outside quotes.
pub data Kind : Type 0 where
  quote : Kind
  gap : Kind
  plain : Kind

unfoldable pub kind_of : Bool → ℕ → Kind
unfolding is_whitespace
kind_of quoted c = if c == b'"' then quote else if is_whitespace c && not quoted then gap else plain

-- `if !current.is_empty() { out.push(current) }`, in front of the later ones
abbrev pub push_current : Text → List Text → List Text
push_current [] later = later
push_current (c ∷ s) later = (c ∷ s) ∷ later

-- The loop over the characters.
unfoldable pub split_from : Bool → Text → Text → List Text
unfolding kind_of
split_from quoted current [] = push_current current []
split_from quoted current (c ∷ s) = elim (kind_of quoted c) [
  | quote ↦ split_from (not quoted) current s
  | gap ↦ push_current current (split_from quoted [] s)
  | plain ↦ split_from quoted (current ++ (c ∷ [])) s
]

unfoldable pub split_args : Text → List Text
unfolding split_from trim
split_args line = split_from false [] (trim line)

-- The token behind the first that is a flag.
unfoldable pub value_of : Text → List Text → Option Text
unfolding ◌=ᵗ◌
value_of flag [] = none
value_of flag (t ∷ []) = none
value_of flag (t ∷ u ∷ ts) = if t =ᵗ flag then some u else value_of flag (u ∷ ts)

-- `s.split(',')`
unfoldable pub split_commas : Text → List Text
split_commas [] = [] ∷ []
split_commas (c ∷ s) = elim (split_commas s) [
  | [] ↦ (c ∷ []) ∷ []
  | p ∷ ps ↦ if c == b',' then [] ∷ (p ∷ ps) else (c ∷ p) ∷ ps
]

-- `s.ends_with(suffix)`
abbrev pub ends_with : Text → Text → Bool
ends_with suffix [] = suffix =ᵗ []
ends_with suffix (c ∷ s) = (c ∷ s) =ᵗ suffix || ends_with suffix s

-- `chars().take_while(is_ascii_digit)`
abbrev pub leading_digits : Text → Text
leading_digits [] = []
leading_digits (c ∷ s) = if is_digit c then c ∷ leading_digits s else []

-- The block that an entry sends to the CPU.
unfoldable pub cpu_block : Text → Option ℕ
unfolding trim_end trim strip_prefix parse_digits is_digit ◌=ᵗ◌
cpu_block entry =
    if ends_with (codes "=CPU") (trim_end entry)
    then (strip_prefix (codes "blk\\.") (trim entry) >>=? λ rest.
        parse_digits (2 ^ 32) (leading_digits rest))
    else none

-- The sorted list with a block in it, once: `sort_unstable` and `dedup`.
unfoldable pub insert_block_once : ℕ → List ℕ → List ℕ
insert_block_once x [] = x ∷ []
insert_block_once x (y ∷ ys) =
    let later = insert_block_once x ys in
    if x == y then y ∷ ys else if ltb x y then x ∷ (y ∷ ys) else y ∷ later

unfoldable pub collect_blocks : List Text → List ℕ
unfolding cpu_block insert_block_once
collect_blocks [] = []
collect_blocks (entry ∷ entries) = elim (cpu_block entry) [
  | none ↦ collect_blocks entries
  | some block ↦ insert_block_once block (collect_blocks entries)
]

unfoldable pub cpu_blocks : Text → List ℕ
unfolding collect_blocks split_commas
cpu_blocks overrides = collect_blocks (split_commas overrides)

-- The digits at the end: the last piece of `rsplit(|c| !c.is_ascii_digit())`.
unfoldable pub trailing_digits : Text → Text
unfolding is_digit
trailing_digits [] = []
trailing_digits (c ∷ s) =
    let rest = trailing_digits s in if all is_digit s && is_digit c then c ∷ rest else rest

unfoldable pub number_before : Text → Text → Option ℕ
unfolding split_once trailing_digits parse_digits
number_before text marker =
    split_once marker text >>=? λ (before, _). parse_digits (2 ^ 64) (trailing_digits before)

unfoldable pub device_fit : Text → Option DeviceFit
unfolding split_once trim parse_unsigned number_before
device_fit line = split_once (codes " - ") line >>=? λ (_, rest).
    split_once (codes "): ") rest >>=? λ (name, rest').
    split_once (codes " layers") rest' >>=? λ (layers_part, tail).
    parse_unsigned (2 ^ 32) (trim layers_part) >>=? λ layers.
    number_before tail (codes " MiB used") >>=? λ used.
    number_before tail (codes " MiB free") >>=? λ free. some (record {
      name = name ++ codes ")";
      layers = layers;
      overflowing =
          unwrap_or
            (split_once (codes "(") tail >>=? λ (_, r).
              split_once (codes " overflowing") r >>=? λ (n, _). parse_unsigned (2 ^ 32) (trim n))
            0;
      used_mib = used;
      free_mib = free;
    })

-- The device's line in place of an earlier one, or behind all of them.
unfoldable pub put_device : DeviceFit → List DeviceFit → List DeviceFit
unfolding ◌=ᵗ◌
put_device fit [] = fit ∷ []
put_device fit (d ∷ ds) = if d.name =ᵗ fit.name then fit ∷ ds else d ∷ put_device fit ds

unfoldable pub put_devices : List Text → List DeviceFit → List DeviceFit
unfolding device_fit put_device
put_devices [] devices = devices
put_devices (line ∷ rest) devices =
    put_devices rest (elim (device_fit line) [ none ↦ devices | some fit ↦ put_device fit devices ])

unfoldable pub device_fits : Text → List DeviceFit
unfolding put_devices lines
device_fits log = put_devices (lines log) []

-- The first line that reports an error.
unfoldable pub error_line : List Text → Option Text
unfolding split_once trim
error_line [] = none
error_line (line ∷ rest) = elim (split_once (codes " E ") line) [
  | some (_, msg) ↦ some (trim msg)
  | none ↦ error_line rest
]

unfoldable pub first_error : Text → Option Text
unfolding error_line lines
first_error log = error_line (lines log)

unfoldable pub parse_fit_output : Text → Text → Result FitError FitPlacement
unfolding split_args value_of parse_i64 cpu_blocks device_fits first_error
parse_fit_output stdout log =
    let tokens = split_args stdout in
    let tensor_overrides = value_of (codes "-ot") tokens in
    elim (value_of (codes "-ngl") tokens >>=? λ v. parse_i64 v) [
      | none ↦ elim (first_error log) [
        | none ↦ err unrecognised
        | some reason ↦ err (failed reason)
      ]
      | some gpu_layers ↦ ok (record {
        context = value_of (codes "-c") tokens >>=? λ v. parse_i64 v;
        gpu_layers = gpu_layers;
        cpu_expert_blocks = elim tensor_overrides [ none ↦ [] | some v ↦ cpu_blocks v ];
        tensor_overrides = tensor_overrides;
        devices = device_fits log;
      })
    ]
