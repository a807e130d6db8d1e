-- ===== src/Gui/Tray/Menu.antt =====
-- redog-gui/src-tauri/src/tray.rs: `build_tray`, the items of the tray's menu, and which of them a
-- click does something for. The pictures and separators of Tauri are an item without an id.
use redog.Common.{
  Bool, true, false, Text, codes, List, [], ◌∷◌, ◌++◌, ◌≡◌, ◌≢◌, ◌↔◌, ◌⊎◌, inl, inr, refl, arith,
  if◌then◌else◌, text_eq, text_eq_iff, Bool-cases, sym, ap, ◌∙◌, ◌&&◌, ◌||◌, not,
}
use redog.Gui.Tray.{
  exit_process, set_mode, toggle_proxy, copy_command, reload_config, create_config_dir,
  open_config_dir, Effect, handle_menu_click, navigate, latency_test,
}

-- An item with its id, its title and whether it is enabled; a submenu; a line between items.
pub data MenuItem : Type 0 where
  menu_item : Text → Text → Bool → MenuItem
  separator : MenuItem

pub data MenuEntry : Type 0 where
  entry : MenuItem → MenuEntry
  submenu : Text → Text → List MenuItem → MenuEntry

unfoldable pub mode_menu : MenuEntry
mode_menu = submenu (codes "outbound_mode") (codes "出站模式 (Outbound Mode)") (
    menu_item (codes "mode_rule") (codes "● 规则判断 (Rule)") true
    ∷ menu_item (codes "mode_global") (codes "  全局代理 (Global)") true
    ∷ menu_item (codes "mode_direct") (codes "  全局直连 (Direct)") true
    ∷ [])

unfoldable pub proxies_menu : MenuEntry
proxies_menu =
    submenu (codes "proxy_groups") (codes "代理组 (Proxy Groups)")
      (menu_item (codes "proxies_loading") (codes "加载代理组中...") false ∷ [])

unfoldable pub build_tray : List MenuEntry
unfolding mode_menu proxies_menu
build_tray =
    mode_menu
    ∷ entry separator
    ∷ proxies_menu
    ∷ entry separator
    ∷ entry (menu_item (codes "sys_proxy") (codes "设置为系统代理 (System Proxy)") true)
    ∷ entry (menu_item (codes "copy_cmd") (codes "复制终端代理命令") true)
    ∷ entry (menu_item (codes "allow_lan") (codes "允许局域网连接 (Allow LAN)") true)
    ∷ entry (menu_item (codes "launch_login") (codes "开机启动 (Launch at Login)") true)
    ∷ entry separator
    ∷ entry (menu_item (codes "dashboard") (codes "仪表盘 (Dashboard)") true)
    ∷ entry (menu_item (codes "connections") (codes "连接 (Connections)") true)
    ∷ entry (menu_item (codes "logs") (codes "日志 (Logs)") true)
    ∷ entry (menu_item (codes "latency_test") (codes "延迟测速 (Latency Test)") true)
    ∷ entry (menu_item (codes "reload_config") (codes "重载配置 (Reload Config)") true)
    ∷ entry separator
    ∷ entry (menu_item (codes "open_config_dir") (codes "打开配置目录") true)
    ∷ entry (menu_item (codes "about") (codes "关于 Redog") true)
    ∷ entry separator
    ∷ entry (menu_item (codes "quit") (codes "退出 (Quit)") true)
    ∷ []

-- The ids of the enabled items.
abbrev pub item_ids : List MenuItem → List Text
item_ids [] = []
item_ids (menu_item id title true ∷ is) = id ∷ item_ids is
item_ids (menu_item id title false ∷ is) = item_ids is
item_ids (separator ∷ is) = item_ids is

abbrev pub enabled_ids : List MenuEntry → List Text
enabled_ids [] = []
enabled_ids (entry i ∷ es) = item_ids (i ∷ []) ++ enabled_ids es
enabled_ids (submenu id title is ∷ es) = item_ids is ++ enabled_ids es

abbrev pub Listed : Text → List Text → Type 0
Listed id [] = ⊥
Listed id (i ∷ is) = (i ≡ id) ⊎ Listed id is

-- The ids of the enabled items that a click does nothing for.
abbrev pub idle : List Text
idle = codes "allow_lan" ∷ codes "launch_login" ∷ []

-- A test of a list of ids.
abbrev any_of : Text → List Text → Bool
any_of id [] = false
any_of id (i ∷ is) = if text_eq id i then true else any_of id is

any_of_iff : (id : Text) (is : List Text) → (any_of id is ≡ true) ↔ Listed id is
any_of_iff id [] = (λ e. absurd (ground (arith, e)), λ h. absurd h)
any_of_iff id (i ∷ is) = elim (Bool-cases (text_eq id i)) [
  | inl same ↦ rw same (λ e. inl (sym ((text_eq_iff id i).0 same)), λ h. refl)
  | inr other ↦ rw other (
    λ e. inr ((any_of_iff id is).0 e),
    λ h. elim h [
      | inl e ↦ absurd (ground (arith, other, (text_eq_iff id i).1 (sym e)))
      | inr k ↦ (any_of_iff id is).1 k
    ],
  )
]

abbrev all_of : (Text → Bool) → List Text → Bool
all_of f [] = true
all_of f (i ∷ is) = f i && all_of f is

-- What a test says of all ids of a list holds of each.
all_of-Listed :
    (f : Text → Bool) (is : List Text) (id : Text) → all_of f is ≡ true → Listed id is → f id ≡ true
all_of-Listed f [] id e h = absurd h
all_of-Listed f (i ∷ is) id e (inl same) = ap f (sym same) ∙ ground (arith, e)
all_of-Listed f (i ∷ is) id e (inr h) = all_of-Listed f is id (ground (arith, e)) h

-- The cases of `handle_menu_click` as a table.
abbrev Table : Type 0
Table = List (Text × (Text → List Effect))

abbrev first_of : Table → Text → List Effect
first_of [] id = []
first_of ((i, effects) ∷ t) id = if text_eq id i then effects id else first_of t id

abbrev keys : Table → List Text
keys [] = []
keys ((i, effects) ∷ t) = i ∷ keys t

abbrev Acts : Table → Type 0
Acts [] = Unit
Acts ((i, effects) ∷ t) = ((id : Text) → effects id ≢ []) × Acts t

first_of_iff : (t : Table) (id : Text) → Acts t → (first_of t id ≢ []) ↔ Listed id (keys t)
first_of_iff [] id a = (λ h. absurd (h refl), λ h. absurd h)
first_of_iff ((i, effects) ∷ t) id (a, as') = elim (Bool-cases (text_eq id i)) [
  | inl same ↦ rw same (λ h. inl (sym ((text_eq_iff id i).0 same)), λ h. a id)
  | inr other ↦ rw other (
    λ h. inr ((first_of_iff t id as').0 h),
    λ h. elim h [
      | inl e ↦ absurd (ground (arith, other, (text_eq_iff id i).1 (sym e)))
      | inr k ↦ (first_of_iff t id as').1 k
    ],
  )
]

abbrev clicks : Table
clicks =
    (codes "quit", λ id. exit_process ∷ [])
    ∷ (codes "dashboard", λ id. navigate true id)
    ∷ (codes "connections", λ id. navigate true id)
    ∷ (codes "logs", λ id. navigate true id)
    ∷ (codes "mode_rule", λ id. set_mode (codes "rule") ∷ [])
    ∷ (codes "mode_global", λ id. set_mode (codes "global") ∷ [])
    ∷ (codes "mode_direct", λ id. set_mode (codes "direct") ∷ [])
    ∷ (codes "sys_proxy", λ id. toggle_proxy ∷ [])
    ∷ (codes "copy_cmd", λ id. copy_command ∷ [])
    ∷ (codes "latency_test", λ id. latency_test true)
    ∷ (codes "reload_config", λ id. reload_config ∷ [])
    ∷ (codes "open_config_dir", λ id. create_config_dir ∷ open_config_dir ∷ [])
    ∷ (codes "about", λ id. navigate true (codes "about"))
    ∷ []

three :
    {A : Type 0} (a b c : Bool) (x y : A)
    → (if a || b || c then x else y) ≡ (if a then x else if b then x else if c then x else y)
three true b c x y = refl
three false true c x y = refl
three false false c x y = refl

clicks_table : (id : Text) → handle_menu_click true id ≡ first_of clicks id
unfolding handle_menu_click
clicks_table id =
    ap (λ e. if text_eq id (codes "quit") then exit_process ∷ [] else e)
      (three (text_eq id (codes "dashboard")) (text_eq id (codes "connections"))
        (text_eq id (codes "logs")) (navigate true id) _)

acts : {e : Effect} {es : List Effect} → e ∷ es ≢ []
acts h = cc

clicks-Acts : Acts clicks
unfolding navigate latency_test
clicks-Acts = (
  λ id. acts,
  (
    λ id. acts,
    (
      λ id. acts,
      (
        λ id. acts,
        (
          λ id. acts,
          (
            λ id. acts,
            (
              λ id. acts,
              (
                λ id. acts,
                (λ id. acts, (λ id. acts, (λ id. acts, (λ id. acts, (λ id. acts, tt))))),
              ),
            ),
          ),
        ),
      ),
    ),
  ),
)

-- The ids of the table are those of the enabled items but the idle ones, and no others.
keys_iff :
    (id : Text)
    → Listed id (keys clicks) ↔ (Listed id (enabled_ids build_tray) × (Listed id idle → ⊥))
unfolding build_tray mode_menu proxies_menu text_eq
keys_iff id =
    let ids = enabled_ids build_tray in
    (
      λ h.
          let inside : (any_of id ids && not (any_of id idle)) ≡ true =
            all_of-Listed (λ i. any_of i ids && not (any_of i idle)) (keys clicks) id refl h in
          (
            (any_of_iff id ids).0 (ground (arith, inside)),
            λ k. ground (arith, inside, (any_of_iff id idle).1 k),
          ),
      λ (h, active).
          let inside : (any_of id (keys clicks) || any_of id idle) ≡ true =
            all_of-Listed (λ i. any_of i (keys clicks) || any_of i idle) ids id refl h in
          elim (Bool-cases (any_of id idle)) [
            | inl k ↦ absurd (active ((any_of_iff id idle).0 k))
            | inr k ↦ (any_of_iff id (keys clicks)).0 (ground (arith, inside, k))
          ],
    )

-- With the window there, a click does something exactly if its id is that of an enabled item of the
-- tray's menu, `allow_lan` and `launch_login` excepted.
pub handle_menu_click_iff :
    (id : Text)
    → (handle_menu_click true id ≢ []) ↔ (Listed id (enabled_ids build_tray) × (Listed id idle → ⊥))
handle_menu_click_iff id = rw (clicks_table id) (
  λ h. (keys_iff id).0 ((first_of_iff clicks id clicks-Acts).0 h),
  λ k. (first_of_iff clicks id clicks-Acts).1 ((keys_iff id).1 k),
)
