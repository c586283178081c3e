-- ===== src/Tests/Renewals.antt =====
-- Renewals at the Rebecca service in memory that has two resellers with limits of their own.
use rebecca_reseller_bot.Prelude.{ℕ, ◌+◌, ◌*◌, ◌%◌, ◌<◌, ◌≡◌, refl, inl, true, some, [], ◌∷◌, arith}
use rebecca_reseller_bot.Prelude.Int.{pos}
use rebecca_reseller_bot.Prelude.Text.{lit}
use rebecca_reseller_bot.Prelude.Time.{day}
use rebecca_reseller_bot.Prelude.Effects.{ok}
use rebecca_reseller_bot.Rebecca.Models.{Admin}
use rebecca_reseller_bot.Database.Models.{OrderStatus}
use rebecca_reseller_bot.Payments.Service.Apply.{ApplyState, apply_order}
use rebecca_reseller_bot.Payments.Service.Once.{Spent, attempts, attempts-Spent}
use rebecca_reseller_bot.Payments.Service.Renewed.{renewal_succeeds}
use rebecca_reseller_bot.Tests.World.{noon, late, shop, small_plan, ali, paid_order}
use rebecca_reseller_bot.Tests.Registry.{
  Registry, registry, committing, limit_of, registry_keeps, registry-Obeys,
}

unfoldable kiosk : Admin
unfolding shop lit
kiosk = record shop { username = lit "kiosk_5678"; data_limit = some (pos 7000) }

unfoldable waiting : ApplyState Registry
unfolding paid_order ali kiosk shop
waiting = record {
  order = paid_order;
  reseller = ali;
  world = record { admins = kiosk ∷ shop ∷ []; commits = 0 };
}

renewal_succeeds_example :
    ((apply_order registry small_plan noon committing waiting).0 ≡ ok true)
    × ((apply_order registry small_plan noon committing waiting).1.order.status
        ≡ OrderStatus.applied)
unfolding waiting rebecca_reseller_bot.Payments.Service.Apply.is_skipped
    rebecca_reseller_bot.Payments.Service.Apply.persisted_target registry
    rebecca_reseller_bot.Prelude.Text.teq lit
renewal_succeeds_example =
    renewal_succeeds registry small_plan noon committing shop (noon + 3 * day) waiting
      registry-Obeys refl refl refl refl refl refl refl (omega arith) (omega arith) (omega arith)

attempts-Spent_example :
    Spent registry small_plan committing
      (lit "shop_1234")
      (limit_of (lit "shop_1234"))
      (registry_keeps (lit "shop_1234"))
      (some (pos 1000))
      (attempts registry small_plan committing (noon ∷ late ∷ []) waiting)
unfolding waiting paid_order ali kiosk shop lit
    rebecca_reseller_bot.Payments.Service.Apply.persisted_target
    rebecca_reseller_bot.Prelude.Text.teq
attempts-Spent_example =
    attempts-Spent registry small_plan committing (lit "shop_1234") (limit_of (lit "shop_1234"))
      (registry_keeps (lit "shop_1234")) (noon ∷ late ∷ []) (some (pos 1000)) waiting refl
      (inl (refl, refl))
