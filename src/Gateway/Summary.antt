-- ===== src/Gateway/Summary.antt =====
-- `summaryStatus` of internal/webgateway/proxy.go: the state that the gateway shows to a dashboard.
use mihomo_loongnix.Prelude.{
  ◌↔◌, refl, contains, ℕ, ◌+◌, String, Bool, true, false, not, ◌&&◌, ◌||◌, [], ◌∷◌, Option, none,
  some, if◌then◌else◌, ◌==◌, string_eq, ltb, ◌≡◌, ◌≤◌, arith,
}

pub record CoreStatus : Type 0 where
  pub service_active : Bool
  pub controller_healthy : Bool
  pub running : Bool
  pub state_query_ok : Bool
  pub service_state : String

pub record TunStatus : Type 0 where
  pub configured : Bool
  pub enabled : Bool
  pub observation_ok : Bool

pub record ManagerStatus : Type 0 where
  pub core : CoreStatus
  pub tun : TunStatus
  pub current_node : String
  pub observed_at : String

pub record SummaryReply : Type 0 where
  pub state : String
  pub state_label : String
  pub observed_at : Option String
  pub stale : Bool
  pub node_label : String
  pub tun_label : String

abbrev differ : Bool → Bool → Bool
differ true b = not b
differ false b = b

-- The outcomes of the function, and their state and label.
pub data Verdict : Type 0 where
  stopped changing unreachable mismatched healthy unknown unavailable : Verdict

unfoldable pub state_of : Verdict → String
state_of stopped = "stopped"
state_of changing = "degraded"
state_of unreachable = "degraded"
state_of mismatched = "degraded"
state_of healthy = "healthy"
state_of unknown = "unknown"
state_of unavailable = "unknown"

unfoldable pub label_of : Verdict → String
label_of stopped = "代理已停止"
label_of changing = "代理服务异常或正在切换"
label_of unreachable = "控制接口不可用"
label_of mismatched = "TUN 状态与配置不一致"
label_of healthy = "运行正常"
label_of unknown = "状态未知"
label_of unavailable = "数据不可用"

-- The `switch` on the core's state.
unfoldable pub core_verdict : ManagerStatus → Verdict
core_verdict s =
    if s.core.service_state == "inactive"
    then stopped
    else if s.core.service_state == "failed"
        || s.core.service_state == "activating"
        || s.core.service_state == "deactivating"
    then changing
    else if s.core.service_active && not s.core.controller_healthy
    then unreachable
    else if s.core.running && s.tun.observation_ok && differ s.tun.configured s.tun.enabled
    then mismatched
    else if s.core.running && s.tun.observation_ok
    then healthy
    else unknown

-- 30 seconds and 5 seconds, in nanoseconds.
abbrev max_age : ℕ
max_age = 30000000000

abbrev max_skew : ℕ
max_skew = 5000000000

abbrev pub is_stale : ℕ → Option ℕ → Bool
is_stale now none = true
is_stale now (some stamp) = ltb (stamp + max_age) now || ltb (now + max_skew) stamp

abbrev is_old : ℕ → Option ℕ → Bool
is_old now none = false
is_old now (some stamp) = ltb (stamp + max_age) now

abbrev observed : Option ℕ → String → Option String
observed none at = none
observed (some stamp) at = some at

abbrev node_text : Bool → String → String
node_text show_node node = if node == "" then "未选择" else if show_node then node else "已选择"

abbrev tun_text : Bool → TunStatus → String
tun_text read_ok tun =
    if read_ok && tun.observation_ok
    then if tun.enabled then "已开启" else if tun.configured then "待生效" else "关闭"
    else "未知"

unfoldable pub verdict : ManagerStatus → Bool → Bool → Verdict
verdict s read_ok stale =
    if not read_ok || stale
    then unavailable
    else if s.core.state_query_ok
    then core_verdict s
    else unknown

-- `stamp` is the parsed `ObservedAt`.
unfoldable pub summary_status : ManagerStatus → Bool → Bool → ℕ → Option ℕ → SummaryReply
summary_status s read_ok show_node now stamp =
    let stale = is_stale now stamp in
    let shown = verdict s read_ok stale in
    record {
      state = state_of shown;
      state_label = if is_old now stamp then "数据过期" else label_of shown;
      observed_at = observed stamp s.observed_at;
      stale = not read_ok || stale;
      node_label = node_text show_node s.current_node;
      tun_label = tun_text read_ok s.tun;
    }

-- What the page promises when it shows "healthy".
pub record IsHealthy (s : ManagerStatus) : Type 0 where
  pub running : s.core.running ≡ true
  pub state_query_ok : s.core.state_query_ok ≡ true
  pub observation_ok : s.tun.observation_ok ≡ true
  pub tun_agrees : s.tun.configured ≡ s.tun.enabled
  pub reachable : (s.core.service_active && not s.core.controller_healthy) ≡ false
  pub steady :
      contains ("inactive" ∷ "failed" ∷ "activating" ∷ "deactivating" ∷ []) s.core.service_state
      ≡ false

other_text : (s : String) → (s == "healthy") ≡ false → s ≡ "healthy" → ⊥
other_text s f h = cc (f, (string_eq.beq_iff s "healthy").1 h)

state_of-healthy : (v : Verdict) → state_of v ≡ "healthy" → v ≡ healthy
unfolding state_of
state_of-healthy stopped h = absurd (other_text "stopped" refl h)
state_of-healthy changing h = absurd (other_text "degraded" refl h)
state_of-healthy unreachable h = absurd (other_text "degraded" refl h)
state_of-healthy mismatched h = absurd (other_text "degraded" refl h)
state_of-healthy healthy h = refl
state_of-healthy unknown h = absurd (other_text "unknown" refl h)
state_of-healthy unavailable h = absurd (other_text "unknown" refl h)

verdict-healthy :
    (s : ManagerStatus) (read_ok stale : Bool)
    → verdict s read_ok stale ≡ healthy
    → (core_verdict s ≡ healthy)
      × (s.core.state_query_ok ≡ true)
      × (read_ok ≡ true)
      × (stale ≡ false)
unfolding verdict
verdict-healthy s read_ok stale h = ground (arith, core_verdict s)

core_verdict-healthy :
    (s : ManagerStatus)
    → core_verdict s ≡ healthy
    → (s.core.running ≡ true)
      × (s.tun.observation_ok ≡ true)
      × (s.tun.configured ≡ s.tun.enabled)
      × ((s.core.service_active && not s.core.controller_healthy) ≡ false)
      × (contains ("inactive" ∷ "failed" ∷ "activating" ∷ "deactivating" ∷ []) s.core.service_state
          ≡ false)
unfolding core_verdict
core_verdict-healthy s h =
    ground (arith, s.tun.configured, s.tun.enabled, s.core.running, s.tun.observation_ok)

-- The state shown is "healthy" only when the manager's answer was read, was observed at most 30
-- seconds ago and at most 5 seconds ahead, and says that the core runs, that its state and the
-- TUN device could be observed, that TUN is as configured, that an active service has a
-- healthy controller, and that the service is in no stopped, failed or changing state.
pub summary-IsHealthy :
    (s : ManagerStatus) (read_ok show_node : Bool) (now stamp : ℕ)
    → (summary_status s read_ok show_node now (some stamp)).state ≡ "healthy"
    → IsHealthy s × (read_ok ≡ true) × (now ≤ stamp + 30000000000) × (stamp ≤ now + 5000000000)
unfolding summary_status
summary-IsHealthy s read_ok show_node now stamp h =
    let facts : (core_verdict s ≡ healthy)
        × (s.core.state_query_ok ≡ true)
        × (read_ok ≡ true)
        × (is_stale now (some stamp) ≡ false) =
      verdict-healthy s read_ok (is_stale now (some stamp))
        (state_of-healthy (verdict s read_ok (is_stale now (some stamp))) h) in
    let core : (s.core.running ≡ true)
        × (s.tun.observation_ok ≡ true)
        × (s.tun.configured ≡ s.tun.enabled)
        × ((s.core.service_active && not s.core.controller_healthy) ≡ false)
        × (contains ("inactive" ∷ "failed" ∷ "activating" ∷ "deactivating" ∷ [])
              s.core.service_state
            ≡ false) =
      core_verdict-healthy s facts.0 in
    (
      record {
        running = core.0;
        state_query_ok = facts.1;
        observation_ok = core.1;
        tun_agrees = core.2;
        reachable = core.3;
        steady = core.4;
      },
      facts.2,
      ground (arith, facts.3),
      ground (arith, facts.3),
    )

-- An answer that was read, and that was observed at most 30000000000 nanoseconds ago and at most
-- 5000000000 in the future.
abbrev pub IsFresh : Bool → ℕ → Option ℕ → Type 0
IsFresh read_ok now stamp =
    (t : ℕ) × (read_ok ≡ true) × (stamp ≡ some t) × (now ≤ t + 30000000000) × (t ≤ now + 5000000000)

-- The page does not say that an answer is stale exactly when it was read, has a time of
-- observation, and that lies at most 30 seconds ago and at most five seconds in the future. When the page says so, it
-- shows the state "unknown".
pub summary_stale_iff :
    (s : ManagerStatus) (read_ok show_node : Bool) (now : ℕ) (stamp : Option ℕ)
    → (((summary_status s read_ok show_node now stamp).stale ≡ false) ↔ IsFresh read_ok now stamp)
      × ((summary_status s read_ok show_node now stamp).stale ≡ true
          → (summary_status s read_ok show_node now stamp).state ≡ "unknown")
unfolding summary_status verdict state_of
summary_stale_iff s true show_node now none =
    ((λ h. absurd cc, λ (t, _, e, _, _). absurd cc), λ h. refl)
summary_stale_iff s false show_node now stamp =
    ((λ h. absurd cc, λ (t, e, _, _, _). absurd cc), λ h. refl)
summary_stale_iff s true show_node now (some t) = (
  (
    λ h. (t, refl, refl, ground arith, ground arith),
    λ (t', _, e, late, early). let same : t ≡ t' = ground arith in ground arith,
  ),
  λ h. ground arith,
)
