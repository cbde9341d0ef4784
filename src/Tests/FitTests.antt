-- ===== src/Tests/FitTests.antt =====
-- The fitter's output of fit.rs, and the theorems about its reading at concrete inputs.
use localx_llama.Text.{strip_prefix, Text, codes}
use localx_llama.Prelude.{ℕ, true, ◌↔◌, ◌≡◌, refl, some, [], ◌∷◌, ◌==◌, any, err}
use localx_llama.Fit.Output.{
  split_args, cpu_blocks, device_fit, parse_fit_output, failed, split_commas,
}
use localx_llama.Fit.Output.Arguments.{printed_args, split_args-printed_args}
use localx_llama.Fit.Output.Devices.{IsAscending, Sent, cpu_blocks_lem}

abbrev overrides : Text
overrides =
    codes "blk\\.14\\.ffn_(gate|up).*=CPU,blk\\.3\\.x=CPU,blk\\.14\\.y=CPU,blk\\.5\\.z=CUDA0"

cpu_blocks_runs : cpu_blocks overrides ≡ 3 ∷ (14 ∷ [])
unfolding cpu_blocks
cpu_blocks_runs = refl

failure_runs :
    parse_fit_output [] (codes "0.00 E model not found ") ≡ err (failed (codes "model not found"))
unfolding parse_fit_output
failure_runs = refl

device_runs :
    device_fit (codes "x - CUDA0 (RTX): 49 layers (35 overflowing),  210 MiB used,   17 MiB free")
    ≡ some (record {
      name = codes "CUDA0 (RTX)";
      layers = 49;
      overflowing = 35;
      used_mib = 210;
      free_mib = 17;
    })
unfolding device_fit strip_prefix
device_runs = refl

cpu_blocks_lem_example :
    IsAscending (cpu_blocks overrides)
    × ((x : ℕ)
        → (any (λ y. y == x) (cpu_blocks overrides) ≡ true) ↔ Sent x (split_commas overrides))
cpu_blocks_lem_example = cpu_blocks_lem overrides

split_args-printed_args_example :
    split_args (printed_args (codes "-ot" ∷ (codes "a b" ∷ []))) ≡ codes "-ot" ∷ (codes "a b" ∷ [])
split_args-printed_args_example =
    split_args-printed_args (codes "-ot" ∷ (codes "a b" ∷ []))
      ((refl, (refl, (refl, (refl, tt)))), ((refl, (refl, (refl, (refl, tt)))), tt))
