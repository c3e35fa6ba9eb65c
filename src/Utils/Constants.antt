-- ===== src/Utils/Constants.antt =====
-- pkg/utils/constants.go
use external_crd.Prelude.{ℕ}
use external_crd.Prelude.Text.{Text, codes}

-- KcrdSystemNamespace
abbrev pub kcrd_system_namespace : Text
kcrd_system_namespace = codes "external-crd-system"

-- KcrdReservedNamespace
abbrev pub kcrd_reserved_namespace : Text
kcrd_reserved_namespace = codes "external-crd-reserved"

-- UsernameRandomDelimiterLength
abbrev pub username_random_delimiter_length : ℕ
username_random_delimiter_length = 4

-- Category
abbrev pub category : Text
category = codes "external-crd"

-- ObjectCreatedByLabel
abbrev pub object_created_by_label : Text
object_created_by_label = codes "k8s.jijiechen.com/created-by"

-- ConfigGroupLabel
abbrev pub config_group_label : Text
config_group_label = codes "k8s.jijiechen.com/config.group"

-- ConfigVersionLabel
abbrev pub config_version_label : Text
config_version_label = codes "k8s.jijiechen.com/config.version"

-- ConfigKindLabel
abbrev pub config_kind_label : Text
config_kind_label = codes "k8s.jijiechen.com/config.kind"

-- ConfigNameLabel
abbrev pub config_name_label : Text
config_name_label = codes "k8s.jijiechen.com/config.name"

-- ConfigNamespaceLabel
abbrev pub config_namespace_label : Text
config_namespace_label = codes "k8s.jijiechen.com/config.namespace"

-- ConfigClusterLabel
abbrev pub config_cluster_label : Text
config_cluster_label = codes "k8s.jijiechen.com/config.cluster"

-- ExternalCrdAppName
abbrev pub external_crd_app_name : Text
external_crd_app_name = codes "external-crd"
