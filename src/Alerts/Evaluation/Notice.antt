-- ===== src/Alerts/Evaluation/Notice.antt =====
-- The paragraphs of an alert's message: `_text`, `_detail_row`, `_utilization_indicator`, `_display_ratio` and
-- `_paragraphs` of backend/celery_tasks/tasks/storage_alerts.py. How a capacity and a ratio are formatted
-- is an argument.
use package.text.Mathlib.Text.{◌==◌ as str_eq}
use Prim.Native.String.{◌++◌ as text_append}
use disk_pulse.Prelude.{
  ℕ, String, Bool, true, false, Option, none, some, List, [], ◌∷◌, ◌++◌, if◌then◌else◌,
}
use disk_pulse.Alerts.Rule.{StorageAlertRule, Level, important, serious, emergency, reaches}
use disk_pulse.Alerts.Delivery.{Element}

-- The columns of a target that an evaluation reads.
pub record Target : Type 0 where
  pub id : ℕ
  pub limit : Option ℕ
  pub soft_limit : Option ℕ
  pub used : Option ℕ
  pub use_ratio : Option ℕ
  pub soft_use_ratio : Option ℕ

-- The keys of a context, and their labels.
pub data ContextKey : Type 0 where
  username cluster clusters project_name group_tag group_name linux_path : ContextKey

abbrev pub label_of : ContextKey → String
label_of username = "用户名"
label_of cluster = "集群"
label_of clusters = "集群"
label_of project_name = "项目"
label_of group_tag = "项目组标签"
label_of group_name = "项目组"
label_of linux_path = "Linux 路径"

-- A value of the context: a text, or a list of texts.
pub data ContextValue : Type 0 where
  one : Option String → ContextValue
  many : List String → ContextValue

abbrev pub Context : Type 0
Context = List (ContextKey × ContextValue)

abbrev text_element : String → Bool → Element
text_element t b = record { text = t; bold = b }

abbrev detail_row : String → String → List Element
detail_row label value = text_element (text_append label "：") true ∷ text_element value false ∷ []

-- `"、".join(value)`
unfoldable pub join : List String → String
join [] = ""
join (x ∷ []) = x
join (x ∷ y ∷ xs) = text_append x (text_append "、" (join (y ∷ xs)))

-- The row of a key whose value is not empty.
abbrev context_row : ContextKey → ContextValue → List (List Element)
context_row key (one none) = []
context_row key (one (some value)) =
    if str_eq value "" then [] else detail_row (label_of key) value ∷ []
context_row key (many []) = []
context_row key (many (x ∷ xs)) = detail_row (label_of key) (join (x ∷ xs)) ∷ []

unfoldable pub context_rows : Context → List (List Element)
unfolding join
context_rows [] = []
context_rows ((key, value) ∷ context) = context_row key value ++ context_rows context

unfoldable pub utilization_indicator : StorageAlertRule → ℕ → String
utilization_indicator rule value =
    if reaches value rule.emergency
    then "🔴"
    else (if reaches value rule.serious
        then "🟠"
        else (if reaches value rule.important then "🟡" else "🟢"))

-- `ALERT_LEVEL_LABELS`
abbrev pub level_label : Level → String
level_label important = "重要"
level_label serious = "严重"
level_label emergency = "紧急"

abbrev previous_row : Option Level → List (List Element)
previous_row none = []
previous_row (some l) = detail_row "↩\u{fe0f} 恢复前等级" (level_label l) ∷ []

module _ (display_capacity : Option ℕ → String) (display_ratio : ℕ → String) where
  unfoldable pub ratio_text : StorageAlertRule → Option ℕ → String
  unfolding utilization_indicator
  ratio_text rule none = "未设置"
  ratio_text rule (some value) =
      text_append (utilization_indicator rule value)
        (text_append " " (text_append (display_ratio value) "%"))

  abbrev capacity_text : StorageAlertRule → Option ℕ → Option ℕ → Option ℕ → String
  unfolding ratio_text
  capacity_text rule limit used ratio = text_append (display_capacity limit) (
      text_append "  ·  已使用 "
        (text_append (display_capacity used) (text_append "  ·  使用率 " (ratio_text rule ratio))))

  unfoldable pub paragraphs :
      Target → StorageAlertRule → Context → Option Level → List (List Element)
  unfolding context_rows capacity_text
  paragraphs target rule context previous =
      (text_element "📍 资源信息" true ∷ [])
      ∷ (context_rows context
          ++ ((text_element "📊 容量概览" true ∷ [])
              ∷ detail_row "硬限额" (capacity_text rule target.limit target.used target.use_ratio)
              ∷ detail_row "软限额"
                  (capacity_text rule target.soft_limit target.used target.soft_use_ratio)
              ∷ previous_row previous))
