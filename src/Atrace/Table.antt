-- ===== src/Atrace/Table.antt =====
-- k_categories of atrace/atrace.cpp. The bits of the tags, which the platform's headers define, are the argument
-- Tags.
use cmds.Common.{ℕ, true, false, List, [], ◌∷◌, ◌++◌, Bytes, codes}
use cmds.Atrace.{SysFile, TracingCategory, core_service_category, pdx_service_category}

pub record Tags : Type 0 where
  pub graphics : ℕ
  pub input : ℕ
  pub view : ℕ
  pub webview : ℕ
  pub window_manager : ℕ
  pub activity_manager : ℕ
  pub sync_manager : ℕ
  pub audio : ℕ
  pub video : ℕ
  pub camera : ℕ
  pub hal : ℕ
  pub resources : ℕ
  pub dalvik : ℕ
  pub rs : ℕ
  pub bionic : ℕ
  pub power : ℕ
  pub package_manager : ℕ
  pub system_server : ℕ
  pub database : ℕ
  pub network : ℕ
  pub adb : ℕ
  pub vibrator : ℕ
  pub aidl : ℕ
  pub nnapi : ℕ
  pub rro : ℕ

abbrev pub category : Bytes → Bytes → ℕ → List SysFile → TracingCategory
category name longname tags sysfiles = record {
  name = name;
  longname = longname;
  tags = tags;
  sysfiles = sysfiles;
}

abbrev pub req : Bytes → SysFile
req path = record { required = true; path = path }

abbrev pub opt : Bytes → SysFile
opt path = record { required = false; path = path }

abbrev pub user_categories : Tags → List TracingCategory
user_categories tags =
    category (codes "gfx") (codes "Graphics") tags.graphics []
    ∷ category (codes "input") (codes "Input") tags.input []
    ∷ category (codes "view") (codes "View System") tags.view []
    ∷ category (codes "webview") (codes "WebView") tags.webview []
    ∷ category (codes "wm") (codes "Window Manager") tags.window_manager []
    ∷ category (codes "am") (codes "Activity Manager") tags.activity_manager []
    ∷ category (codes "sm") (codes "Sync Manager") tags.sync_manager []
    ∷ category (codes "audio") (codes "Audio") tags.audio []
    ∷ category (codes "video") (codes "Video") tags.video []
    ∷ category (codes "camera") (codes "Camera") tags.camera []
    ∷ category (codes "hal") (codes "Hardware Modules") tags.hal []
    ∷ category (codes "res") (codes "Resource Loading") tags.resources []
    ∷ category (codes "dalvik") (codes "Dalvik VM") tags.dalvik []
    ∷ category (codes "rs") (codes "RenderScript") tags.rs []
    ∷ category (codes "bionic") (codes "Bionic C Library") tags.bionic []
    ∷ category (codes "power") (codes "Power Management") tags.power []
    ∷ category (codes "pm") (codes "Package Manager") tags.package_manager []
    ∷ category (codes "ss") (codes "System Server") tags.system_server []
    ∷ category (codes "database") (codes "Database") tags.database []
    ∷ category (codes "network") (codes "Network") tags.network []
    ∷ category (codes "adb") (codes "ADB") tags.adb []
    ∷ category (codes "vibrator") (codes "Vibrator") tags.vibrator []
    ∷ category (codes "aidl") (codes "AIDL calls") tags.aidl []
    ∷ category (codes "nnapi") (codes "NNAPI") tags.nnapi []
    ∷ category (codes "rro") (codes "Runtime Resource Overlay") tags.rro []
    ∷ category core_service_category (codes "Core services") 0 []
    ∷ category pdx_service_category (codes "PDX services") 0 []
    ∷ []

-- The categories of the kernel, in two parts.
abbrev pub kernel_categories : List TracingCategory
kernel_categories =
    category (codes "sched") (codes "CPU Scheduling") 0 (
      req (codes "events/sched/sched_switch/enable")
      ∷ req (codes "events/sched/sched_wakeup/enable")
      ∷ opt (codes "events/sched/sched_waking/enable")
      ∷ opt (codes "events/sched/sched_blocked_reason/enable")
      ∷ opt (codes "events/sched/sched_cpu_hotplug/enable")
      ∷ opt (codes "events/sched/sched_pi_setprio/enable")
      ∷ opt (codes "events/sched/sched_process_exit/enable")
      ∷ opt (codes "events/cgroup/enable")
      ∷ opt (codes "events/oom/oom_score_adj_update/enable")
      ∷ opt (codes "events/task/task_rename/enable")
      ∷ opt (codes "events/task/task_newtask/enable")
      ∷ [])
    ∷ category (codes "irq") (codes "IRQ Events") 0
        (req (codes "events/irq/enable") ∷ opt (codes "events/ipi/enable") ∷ [])
    ∷ category (codes "irqoff") (codes "IRQ-disabled code section tracing") 0 (
        req (codes "events/preemptirq/irq_enable/enable")
        ∷ req (codes "events/preemptirq/irq_disable/enable")
        ∷ [])
    ∷ category (codes "preemptoff") (codes "Preempt-disabled code section tracing") 0 (
        req (codes "events/preemptirq/preempt_enable/enable")
        ∷ req (codes "events/preemptirq/preempt_disable/enable")
        ∷ [])
    ∷ category (codes "i2c") (codes "I2C Events") 0 (
        req (codes "events/i2c/enable")
        ∷ req (codes "events/i2c/i2c_read/enable")
        ∷ req (codes "events/i2c/i2c_write/enable")
        ∷ req (codes "events/i2c/i2c_result/enable")
        ∷ req (codes "events/i2c/i2c_reply/enable")
        ∷ opt (codes "events/i2c/smbus_read/enable")
        ∷ opt (codes "events/i2c/smbus_write/enable")
        ∷ opt (codes "events/i2c/smbus_result/enable")
        ∷ opt (codes "events/i2c/smbus_reply/enable")
        ∷ [])
    ∷ category (codes "freq") (codes "CPU Frequency") 0 (
        req (codes "events/power/cpu_frequency/enable")
        ∷ opt (codes "events/power/clock_set_rate/enable")
        ∷ opt (codes "events/power/clock_disable/enable")
        ∷ opt (codes "events/power/clock_enable/enable")
        ∷ opt (codes "events/clk/clk_set_rate/enable")
        ∷ opt (codes "events/clk/clk_disable/enable")
        ∷ opt (codes "events/clk/clk_enable/enable")
        ∷ opt (codes "events/power/cpu_frequency_limits/enable")
        ∷ [])
    ∷ category (codes "membus") (codes "Memory Bus Utilization") 0
        (req (codes "events/memory_bus/enable") ∷ [])
    ∷ []

abbrev pub more_kernel_categories : List TracingCategory
more_kernel_categories =
    category (codes "idle") (codes "CPU Idle") 0 (req (codes "events/power/cpu_idle/enable") ∷ [])
    ∷ category (codes "disk") (codes "Disk I/O") 0 (
        opt (codes "events/f2fs/f2fs_sync_file_enter/enable")
        ∷ opt (codes "events/f2fs/f2fs_sync_file_exit/enable")
        ∷ opt (codes "events/f2fs/f2fs_write_begin/enable")
        ∷ opt (codes "events/f2fs/f2fs_write_end/enable")
        ∷ opt (codes "events/ext4/ext4_da_write_begin/enable")
        ∷ opt (codes "events/ext4/ext4_da_write_end/enable")
        ∷ opt (codes "events/ext4/ext4_sync_file_enter/enable")
        ∷ opt (codes "events/ext4/ext4_sync_file_exit/enable")
        ∷ req (codes "events/block/block_rq_issue/enable")
        ∷ req (codes "events/block/block_rq_complete/enable")
        ∷ [])
    ∷ category (codes "mmc") (codes "eMMC commands") 0 (req (codes "events/mmc/enable") ∷ [])
    ∷ category (codes "load") (codes "CPU Load") 0
        (req (codes "events/cpufreq_interactive/enable") ∷ [])
    ∷ category (codes "sync") (codes "Synchronization") 0 (
        opt (codes "events/sync/enable")
        ∷ opt (codes "events/fence/enable")
        ∷ opt (codes "events/dma_fence/enable")
        ∷ [])
    ∷ category (codes "workq") (codes "Kernel Workqueues") 0
        (req (codes "events/workqueue/enable") ∷ [])
    ∷ category (codes "memreclaim") (codes "Kernel Memory Reclaim") 0 (
        req (codes "events/vmscan/mm_vmscan_direct_reclaim_begin/enable")
        ∷ req (codes "events/vmscan/mm_vmscan_direct_reclaim_end/enable")
        ∷ req (codes "events/vmscan/mm_vmscan_kswapd_wake/enable")
        ∷ req (codes "events/vmscan/mm_vmscan_kswapd_sleep/enable")
        ∷ opt (codes "events/lowmemorykiller/enable")
        ∷ [])
    ∷ category (codes "regulators") (codes "Voltage and Current Regulators") 0
        (req (codes "events/regulator/enable") ∷ [])
    ∷ category (codes "binder_driver") (codes "Binder Kernel driver") 0 (
        req (codes "events/binder/binder_transaction/enable")
        ∷ req (codes "events/binder/binder_transaction_received/enable")
        ∷ req (codes "events/binder/binder_transaction_alloc_buf/enable")
        ∷ opt (codes "events/binder/binder_set_priority/enable")
        ∷ [])
    ∷ category (codes "binder_lock") (codes "Binder global lock trace") 0 (
        opt (codes "events/binder/binder_lock/enable")
        ∷ opt (codes "events/binder/binder_locked/enable")
        ∷ opt (codes "events/binder/binder_unlock/enable")
        ∷ [])
    ∷ category (codes "pagecache") (codes "Page cache") 0 (req (codes "events/filemap/enable") ∷ [])
    ∷ category (codes "memory") (codes "Memory") 0 (
        opt (codes "events/kmem/rss_stat/enable")
        ∷ opt (codes "events/kmem/ion_heap_grow/enable")
        ∷ opt (codes "events/kmem/ion_heap_shrink/enable")
        ∷ [])
    ∷ []

abbrev pub k_categories : Tags → List TracingCategory
k_categories tags = user_categories tags ++ (kernel_categories ++ more_kernel_categories)
