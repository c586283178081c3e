-- ===== src/Tests/Handlers.antt =====
-- The handlers of the bot at concrete inputs.
use rebecca_reseller_bot.Prelude.{
  ℕ, ◌≡◌, refl, ◌⊎◌, Bool, true, false, Option, none, some, List, [], ◌∷◌, not, ◌==◌, is_some,
}
use rebecca_reseller_bot.Prelude.Int.{ℤ, pos, leb_ℤ}
use rebecca_reseller_bot.Prelude.Text.{Text, lit, is_empty}
use rebecca_reseller_bot.Prelude.Json.{Json, int, str, arr, obj, nil, cons, Fields, end, field}
use rebecca_reseller_bot.Prelude.Effects.{Action, Result, ErrorKind, ok, raised}
use rebecca_reseller_bot.Rebecca.Models.{Admin, User}
use rebecca_reseller_bot.Rebecca.Http.{Response, Body, params, ClientState, request}
use rebecca_reseller_bot.Rebecca.Http.Admins.{find_row, names_user}
use rebecca_reseller_bot.Rebecca.Http.Client.{from_rebecca, get_admin}
use rebecca_reseller_bot.Rebecca.Http.Exact.{get_admin-exact}
use rebecca_reseller_bot.Database.Models.{Order, OrderStatus, is_settled}
use rebecca_reseller_bot.Database.Settings.{
  Settings, operations_mode, put_setting, trial_traffic_gb,
}
use rebecca_reseller_bot.Database.Settings.Parse.{int_of}
use rebecca_reseller_bot.Payments.Plisio.{Signing}
use rebecca_reseller_bot.Scheduler.State.{Run}
use rebecca_reseller_bot.Bot.Transactions.{Telegram, get_order}
use rebecca_reseller_bot.Bot.Receipts.{Desk}
use rebecca_reseller_bot.Bot.Checkout.{Draw, Shop}
use rebecca_reseller_bot.Bot.Trials.{TrialDesk, Request, run_trial}
use rebecca_reseller_bot.Bot.Trials.DryRun.{Speaks, Unchanged, dry_run_trial_idle}
use rebecca_reseller_bot.Bot.Values.{entered_value}
use rebecca_reseller_bot.Bot.Values.ReadBack.{entered_traffic_read}
use rebecca_reseller_bot.Bot.Owner.{Console, reseller_disable, reseller_enable, user_delete_confirm}
use rebecca_reseller_bot.Bot.Owner.Guards.{MayRemove, deletion_guarded}
use rebecca_reseller_bot.Bot.Owner.Blind.{Blind, suspension_ignores_mode}
use rebecca_reseller_bot.Bot.Console.{reseller_state_change}
use rebecca_reseller_bot.Bot.Console.Checked.{Switched, state_change_gated}
use rebecca_reseller_bot.Orders.Diagram.{is_final}
use rebecca_reseller_bot.Orders.Table.{Evolves, IsSound}
use rebecca_reseller_bot.Orders.Calls.{
  Call, buy_by_card, send_file, approve_card, reject_order, retry_order, handle_all,
  handle_all-Evolves,
}
use rebecca_reseller_bot.Orders.Settled.{settled_order_stays, final_order_stays}
use rebecca_reseller_bot.Tests.World.{
  World, service, noon, shop_world, tables, session, paid_order, ali, old_user,
}

unfoldable telegram : Telegram World
unfolding lit
telegram = record {
  send_message = λ chat m w. (ok tt, w);
  get_chat_member = λ channel user w. (ok (lit "member"), w);
}

unfoldable defaults : Settings
defaults = record {
  dry_run = true;
  user_delete_grace_hours = pos 48;
  trial_duration_hours = pos 24;
  trial_traffic_gb = pos 1;
  time_warning_thresholds = [];
  traffic_warning_thresholds = [];
}

unfoldable desk : Desk World
unfolding telegram defaults
desk = record { bot = telegram; owner_ids = 1 ∷ []; settings = defaults; has_lifecycle = true }

unfoldable signing : Signing
signing = record { dumps = λ _. []; hmac_sha1 = λ _ _. []; str_container = λ _. [] }

unfoldable shop : Shop World
unfolding signing lit
shop = record {
  signing = signing;
  plisio_enabled = false;
  plisio_secret_key = [];
  public_base_url = [];
  plisio_source_currency = lit "USD";
  create_invoice = λ number amount name w. (ok end, w);
}

unfoldable start : Run World
unfolding session shop_world
start = record { session = session; world = shop_world }

unfoldable draw : Draw
unfolding lit
draw = record { order_id = 6; payment_id = 10; number = lit "R1" }

-- A card order is placed, its receipt sent and approved, and then a rejection comes too late.
unfoldable calls : List Call
unfolding draw lit
calls =
    buy_by_card draw 77 1 noon
    ∷ send_file 6 (lit "file")
    ∷ approve_card 1 6 noon
    ∷ reject_order 1 6
    ∷ []

handle_all-Evolves_example :
    Evolves start.session.committed.orders
      (handle_all desk shop calls start).session.committed.orders
    × IsSound (handle_all desk shop calls start).session.committed.orders
unfolding start IsSound rebecca_reseller_bot.Orders.Table.IsConsistent
handle_all-Evolves_example = handle_all-Evolves desk shop calls start (refl, refl, tt)

-- The run whose only order has that status.
unfoldable run_of : Order → Run World
unfolding start tables
run_of o =
    let db = record tables { orders = o ∷ [] } in
    record start { session = record { written = db; committed = db } }

unfoldable rejected_order : Order
unfolding paid_order
rejected_order = record paid_order { status = OrderStatus.rejected; paid_at = none }

unfoldable late_calls : List Call
late_calls = reject_order 1 5 ∷ retry_order 1 5 ∷ approve_card 1 5 noon ∷ []

settled_order_stays_example :
    (o' : Order) × (get_order 5
        (handle_all desk shop late_calls (run_of paid_order)).session.committed
      ≡ some o')
    × (paid_order.order_number ≡ o'.order_number)
    × (paid_order.amount ≡ o'.amount)
    × (is_settled o'.status ≡ true)
unfolding run_of IsSound rebecca_reseller_bot.Orders.Table.IsConsistent get_order
settled_order_stays_example =
    settled_order_stays desk shop late_calls (run_of paid_order) 5 paid_order (refl, refl, tt) refl
      refl

final_order_stays_example :
    (o' : Order) × (get_order 5
        (handle_all desk shop late_calls (run_of rejected_order)).session.committed
      ≡ some o')
    × (o'.status ≡ rejected_order.status)
unfolding run_of IsSound rebecca_reseller_bot.Orders.Table.IsConsistent rejected_order get_order
    is_final
final_order_stays_example =
    final_order_stays desk shop late_calls (run_of rejected_order) 5 rejected_order (refl, refl, tt)
      refl refl

-- Rebecca lists one administrator, whose fields `validated` takes.
unfoldable listed : Fields
unfolding lit
listed = field (lit "username") (str (lit "shop_1234")) end

unfoldable panel : Text → Text → Body → Action ℕ Response
unfolding listed
panel method path b w =
    (ok (record { status = 200; content = some (ok (arr (cons (obj listed) nil))) }), w)

unfoldable validated : Fields → Result Admin
unfolding rebecca_reseller_bot.Tests.World.shop
validated entries = ok rebecca_reseller_bot.Tests.World.shop

abbrev no_model : Fields → Result User
no_model entries = raised (record { kind = ErrorKind.value_error; message = [] })

abbrev formatted : Text → Text → Text
formatted template username = template

unfoldable ready : ClientState ℕ
unfolding lit
ready = record { capabilities = (lit "admin_get", true) ∷ []; operation_paths = []; world = 0 }

get_admin-exact_example :
    (answer : Option Json) × (row : Fields) × ((request panel no_model
        (lit "GET")
        (lit "/api/admins")
        (params ((lit "username", lit "shop_1234") ∷ []))
        0).0
      ≡ ok answer)
    × (find_row (lit "shop_1234") answer ≡ ok (some row))
    × (names_user (lit "shop_1234") row ≡ true)
    × (from_rebecca panel no_model validated formatted row
        ≡ ok rebecca_reseller_bot.Tests.World.shop)
unfolding ready listed panel validated get_admin rebecca_reseller_bot.Rebecca.Http.require
    rebecca_reseller_bot.Rebecca.Http.has_capability rebecca_reseller_bot.Prelude.Text.teq
    rebecca_reseller_bot.Rebecca.Http.Client.read_admin request
    rebecca_reseller_bot.Rebecca.Http.on_answer rebecca_reseller_bot.Rebecca.Http.response_of
    rebecca_reseller_bot.Rebecca.Http.content_of rebecca_reseller_bot.Rebecca.Http.Admins.give
    rebecca_reseller_bot.Rebecca.Http.Client.on_admins find_row
    rebecca_reseller_bot.Rebecca.Http.Admins.row_in rebecca_reseller_bot.Rebecca.Http.Admins.rows_of
    rebecca_reseller_bot.Rebecca.Http.Admins.exact_row names_user
    rebecca_reseller_bot.Prelude.Json.get_field lit from_rebecca
    rebecca_reseller_bot.Rebecca.Http.Client.admin_of_row
    rebecca_reseller_bot.Rebecca.Http.Admins.admin_data
    rebecca_reseller_bot.Rebecca.Http.Admins.admin_usage_value
    rebecca_reseller_bot.Rebecca.Http.truthy_or rebecca_reseller_bot.Rebecca.Http.is_unlimited
    int_of rebecca_reseller_bot.Payments.Plisio.truthy
get_admin-exact_example =
    get_admin-exact panel no_model validated formatted (lit "shop_1234") ready
      rebecca_reseller_bot.Tests.World.shop refl

unfoldable undetected : ClientState ℕ
undetected = record { capabilities = []; operation_paths = []; world = 0 }

-- In the dry run the calls of Telegram leave the number of administrators as it is.
abbrev count : World → ℕ
count w = w.created

unfoldable trial_desk : TrialDesk World
unfolding desk lit
trial_desk = record {
  desk = desk;
  channels = lit "@news" ∷ [];
  drawn_suffix = λ w. (ok 5, w);
  drawn_passwords = λ w. (ok (λ _. lit "secret"), w);
  password_fuel = 1;
  forbidden = [];
  send_credentials = λ username password w. (ok tt, w);
}

unfoldable asked : Request
unfolding lit
asked = record { user_id = 77; telegram_username = some (lit "ali"); trial_id = 1; now = noon }

speaking : Speaks count trial_desk.desk.bot
unfolding trial_desk desk telegram
speaking = record { member = λ channel user_id w. refl; message = λ chat_id m w. refl }

dry_run_trial_idle_example :
    Unchanged count start (run_trial trial_desk asked (some service) start).1
unfolding operations_mode trial_desk desk defaults start session tables
    rebecca_reseller_bot.Database.Settings.stored
dry_run_trial_idle_example = dry_run_trial_idle count trial_desk asked service speaking start refl

entered_traffic_read_example :
    (n : ℤ) × (int_of (str (lit "7")) ≡ ok n)
    × (leb_ℤ n (pos 0) ≡ false)
    × (trial_traffic_gb defaults (put_setting (lit "trial_traffic_gb") (int (pos 7)) []) ≡ ok n)
unfolding entered_value rebecca_reseller_bot.Prelude.Text.teq lit
    rebecca_reseller_bot.Prelude.Text.one_of rebecca_reseller_bot.Bot.Values.positive_int int_of
    rebecca_reseller_bot.Database.Settings.Parse.signed rebecca_reseller_bot.Prelude.Text.strip
    rebecca_reseller_bot.Database.Settings.Parse.digits_value
    rebecca_reseller_bot.Prelude.Text.is_digit
entered_traffic_read_example = entered_traffic_read defaults (lit "7") (int (pos 7)) [] refl

-- The environment allows every action.
unfoldable console : Console World
unfolding service
console = record {
  owner_ids = 1 ∷ [];
  dry_run = false;
  allow_disable_actions = true;
  destructive_actions = true;
  allow_delete_actions = true;
  rebecca = some service;
}

deletion_guarded_example :
    let after = (user_delete_confirm console 1 (lit "shop_1234") (lit "u1") start).1.world in
    (after ≡ start.world)
    ⊎ (after ≡ (service.get_user (lit "u1") start.world).1)
    ⊎ MayRemove console service 1 (lit "shop_1234") (lit "u1") start.world
unfolding console
deletion_guarded_example =
    deletion_guarded console service 1 (lit "shop_1234") (lit "u1") start refl

-- The stored mode is the dry run.
unfoldable dry : Run World
unfolding start tables lit
dry =
    let db = record tables {
      settings = record { key = lit "operations_mode"; value = str (lit "dry_run") } ∷ [];
    } in
    record start { session = record { written = db; committed = db } }

suspension_ignores_mode_example :
    let rows = dry.session.committed.settings in
    Blind rows (reseller_disable console 1 1 noon)
    × Blind rows (reseller_enable console 1 1)
    × Blind rows (user_delete_confirm console 1 (lit "shop_1234") (lit "u1"))
suspension_ignores_mode_example =
    suspension_ignores_mode dry.session.committed.settings console 1 1 noon (lit "shop_1234")
      (lit "u1")

state_change_gated_example :
    let after = (reseller_state_change console defaults 1 true 1 dry).1 in
    ((after.world ≡ dry.world) × (after.session.committed ≡ dry.session.committed))
    ⊎ Switched console defaults true 1 1 dry after
state_change_gated_example = state_change_gated console defaults true 1 1 dry
