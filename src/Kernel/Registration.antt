-- ===== src/Kernel/Registration.antt =====
-- packages/core/src/kernel/auth-kernel.ts: registerPlugin and registerPolicy.
use authia.Prelude.{◌≡◌, ap, sym, ◌∙◌, List, [], ◌∷◌, ◌++◌}
use mathlib.Core.List.{append-nil, append_assoc}
use authia.Contracts.Services.{Plugin, Policy}
use authia.Kernel.PolicyRun.{Kernel}

module _ {W : Type 0} where
  abbrev pub register_plugin : Plugin W → Kernel W → Kernel W
  register_plugin plugin kernel = record kernel { plugins = kernel.plugins ++ plugin ∷ [] }

  abbrev pub register_policy : Policy W → Kernel W → Kernel W
  register_policy policy kernel = record kernel { policies = kernel.policies ++ policy ∷ [] }

  -- for (const policy of policies) kernel.registerPolicy(policy)
  abbrev pub register_policies : List (Policy W) → Kernel W → Kernel W
  register_policies [] kernel = kernel
  register_policies (policy ∷ rest) kernel = register_policies rest (register_policy policy kernel)

  -- Policies that are registered one after the other are appended in their order.
  pub register_policies-append :
      (policies : List (Policy W)) (kernel : Kernel W)
      → register_policies policies kernel ≡ record kernel { policies = kernel.policies ++ policies }
  register_policies-append [] kernel =
      ap (λ ps. record kernel { policies = ps }) (sym (append-nil kernel.policies))
  register_policies-append (policy ∷ rest) kernel =
      register_policies-append rest (register_policy policy kernel)
      ∙ ap (λ ps. record kernel { policies = ps }) (append_assoc kernel.policies (policy ∷ []) rest)
