-- ===== src/Quant/Notes/Laws.antt =====
-- The taxonomy's rows are found by their names.
use localx_llama.Text.{strip_prefix, ◌=ᵗ◌, codes}
use localx_llama.Prelude.{◌≡◌, refl, some, ◌++◌, All}
use localx_llama.Quant.{compact}
use localx_llama.Quant.Notes.{semantics_table, quant_semantics}

-- Every row of the taxonomy is found by its code, and by the catalog key of its imatrix build.
pub semantics_table-All :
    All
      (λ r.
        (quant_semantics r.0 ≡ some r) × (quant_semantics (codes "i1-" ++ compact r.0) ≡ some r))
      semantics_table
unfolding quant_semantics compact ◌=ᵗ◌ strip_prefix
semantics_table-All =
    ((
      (refl, refl),
      (
        (refl, refl),
        (
          (refl, refl),
          (
            (refl, refl),
            (
              (refl, refl),
              (
                (refl, refl),
                (
                  (refl, refl),
                  (
                    (refl, refl),
                    (
                      (refl, refl),
                      (
                        (refl, refl),
                        (
                          (refl, refl),
                          (
                            (refl, refl),
                            (
                              (refl, refl),
                              (
                                (refl, refl),
                                (
                                  (refl, refl),
                                  (
                                    (refl, refl),
                                    (
                                      (refl, refl),
                                      (
                                        (refl, refl),
                                        (
                                          (refl, refl),
                                          (
                                            (refl, refl),
                                            (
                                              (refl, refl),
                                              (
                                                (refl, refl),
                                                (
                                                  (refl, refl),
                                                  (
                                                    (refl, refl),
                                                    (
                                                      (refl, refl),
                                                      (
                                                        (refl, refl),
                                                        (
                                                          (refl, refl),
                                                          (
                                                            (refl, refl),
                                                            (
                                                            (refl, refl),
                                                            (
                                                            (refl, refl),
                                                            ((refl, refl), ((refl, refl), tt)),
                                                            ),
                                                            ),
                                                          ),
                                                        ),
                                                      ),
                                                    ),
                                                  ),
                                                ),
                                              ),
                                            ),
                                          ),
                                        ),
                                      ),
                                    ),
                                  ),
                                ),
                              ),
                            ),
                          ),
                        ),
                      ),
                    ),
                  ),
                ),
              ),
            ),
          ),
        ),
      ),
    ))
