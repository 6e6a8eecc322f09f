-- ===== src/Gates/HostConfig/Fields.antt =====
-- rs/src/middleware.rs: the field names that HostConfigGate knows.
use docker_socket_policy.Base.{Text, List, [], ◌∷◌, lit}

-- Every HostConfig field of the Docker Engine API.
unfoldable pub host_config_fields : List Text
host_config_fields =
    lit "Binds"
    ∷ lit "ContainerIDFile"
    ∷ lit "LogConfig"
    ∷ lit "NetworkMode"
    ∷ lit "PortBindings"
    ∷ lit "RestartPolicy"
    ∷ lit "AutoRemove"
    ∷ lit "VolumeDriver"
    ∷ lit "VolumesFrom"
    ∷ lit "Mounts"
    ∷ lit "ConsoleSize"
    ∷ lit "Annotations"
    ∷ lit "CapAdd"
    ∷ lit "CapDrop"
    ∷ lit "CgroupnsMode"
    ∷ lit "Dns"
    ∷ lit "DnsOptions"
    ∷ lit "DnsSearch"
    ∷ lit "ExtraHosts"
    ∷ lit "GroupAdd"
    ∷ lit "IpcMode"
    ∷ lit "Cgroup"
    ∷ lit "Links"
    ∷ lit "OomScoreAdj"
    ∷ lit "PidMode"
    ∷ lit "Privileged"
    ∷ lit "PublishAllPorts"
    ∷ lit "ReadonlyRootfs"
    ∷ lit "SecurityOpt"
    ∷ lit "StorageOpt"
    ∷ lit "Tmpfs"
    ∷ lit "UTSMode"
    ∷ lit "UsernsMode"
    ∷ lit "ShmSize"
    ∷ lit "Sysctls"
    ∷ lit "Runtime"
    ∷ lit "Isolation"
    ∷ lit "MaskedPaths"
    ∷ lit "ReadonlyPaths"
    ∷ lit "Init"
    ∷ lit "Capabilities"
    ∷ lit "CpuShares"
    ∷ lit "Memory"
    ∷ lit "CgroupParent"
    ∷ lit "BlkioWeight"
    ∷ lit "BlkioWeightDevice"
    ∷ lit "BlkioDeviceReadBps"
    ∷ lit "BlkioDeviceWriteBps"
    ∷ lit "BlkioDeviceReadIOps"
    ∷ lit "BlkioDeviceWriteIOps"
    ∷ lit "CpuPeriod"
    ∷ lit "CpuQuota"
    ∷ lit "CpuRealtimePeriod"
    ∷ lit "CpuRealtimeRuntime"
    ∷ lit "CpusetCpus"
    ∷ lit "CpusetMems"
    ∷ lit "Devices"
    ∷ lit "DeviceCgroupRules"
    ∷ lit "DeviceRequests"
    ∷ lit "KernelMemory"
    ∷ lit "KernelMemoryTCP"
    ∷ lit "MemoryReservation"
    ∷ lit "MemorySwap"
    ∷ lit "MemorySwappiness"
    ∷ lit "NanoCpus"
    ∷ lit "OomKillDisable"
    ∷ lit "PidsLimit"
    ∷ lit "Ulimits"
    ∷ lit "CpuCount"
    ∷ lit "CpuPercent"
    ∷ lit "IOMaximumIOps"
    ∷ lit "IOMaximumBandwidth"
    ∷ []

-- Every top-level field of the create body.
unfoldable pub create_body_fields : List Text
create_body_fields =
    lit "Hostname"
    ∷ lit "Domainname"
    ∷ lit "User"
    ∷ lit "AttachStdin"
    ∷ lit "AttachStdout"
    ∷ lit "AttachStderr"
    ∷ lit "ExposedPorts"
    ∷ lit "Tty"
    ∷ lit "OpenStdin"
    ∷ lit "StdinOnce"
    ∷ lit "Env"
    ∷ lit "Cmd"
    ∷ lit "Healthcheck"
    ∷ lit "ArgsEscaped"
    ∷ lit "Image"
    ∷ lit "Volumes"
    ∷ lit "WorkingDir"
    ∷ lit "Entrypoint"
    ∷ lit "NetworkDisabled"
    ∷ lit "MacAddress"
    ∷ lit "OnBuild"
    ∷ lit "Labels"
    ∷ lit "StopSignal"
    ∷ lit "StopTimeout"
    ∷ lit "Shell"
    ∷ lit "HostConfig"
    ∷ lit "NetworkingConfig"
    ∷ []

-- Every field of NetworkingConfig.
unfoldable pub networking_config_fields : List Text
networking_config_fields = lit "EndpointsConfig" ∷ []

-- The HostConfig fields that may hold any value.
unfoldable pub host_config_any_value : List Text
host_config_any_value =
    lit "NetworkMode"
    ∷ lit "RestartPolicy"
    ∷ lit "LogConfig"
    ∷ lit "CapDrop"
    ∷ lit "ReadonlyRootfs"
    ∷ lit "Init"
    ∷ lit "AutoRemove"
    ∷ lit "ConsoleSize"
    ∷ lit "ShmSize"
    ∷ lit "PortBindings"
    ∷ lit "PublishAllPorts"
    ∷ lit "Dns"
    ∷ lit "DnsOptions"
    ∷ lit "DnsSearch"
    ∷ lit "ExtraHosts"
    ∷ lit "Tmpfs"
    ∷ lit "Ulimits"
    ∷ lit "Memory"
    ∷ lit "MemoryReservation"
    ∷ lit "MemorySwap"
    ∷ lit "MemorySwappiness"
    ∷ lit "NanoCpus"
    ∷ lit "CpuShares"
    ∷ lit "CpuPeriod"
    ∷ lit "CpuQuota"
    ∷ lit "CpusetCpus"
    ∷ lit "CpusetMems"
    ∷ lit "PidsLimit"
    ∷ lit "BlkioWeight"
    ∷ lit "ContainerIDFile"
    ∷ []

unfoldable pub no_new_privileges : List Text
no_new_privileges = lit "no-new-privileges" ∷ lit "no-new-privileges:true" ∷ []
